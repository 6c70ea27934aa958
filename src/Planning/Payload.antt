-- ===== src/Planning/Payload.antt =====
-- planning/integrity.py: the payloads whose fingerprints bind plans, evaluations, decisions and
-- admissions. An item or a score is dumped with its field names.
use airflow_dq_agent.Prelude.{String, Bool, List, [], ◌∷◌, map, Option}
use airflow_dq_agent.Contracts.Value.{
  Value, bool, float, pos, text, nat, text?, timestamp, array, object,
}
use airflow_dq_agent.Contracts.Plan.{
  QualityEvidence, TargetSet, PlanItem, executable, non_executable,
}
use airflow_dq_agent.Contracts.Evaluation.{EvalScore}
use airflow_dq_agent.Contracts.Decision.{HumanDecision, ApplyAdmission, kind_text}
use airflow_dq_agent.Environment.{Env}

abbrev pub evidence_value : QualityEvidence → Value
evidence_value item =
    object (("check_id", text item.check_id) ∷ ("contract_id", text item.contract_id) ∷ [])

abbrev pub target_set_value : TargetSet → Value
target_set_value targets =
    object (("count", nat targets.count) ∷ ("fingerprint", text targets.fingerprint) ∷ [])

-- `item.model_dump(mode="json")`
abbrev pub item_value : PlanItem → Value
item_value (executable item) = object (
    ("kind", text "executable")
    ∷ ("item_id", text item.item_id)
    ∷ ("action_id", text item.action_id)
    ∷ ("table", text item.table)
    ∷ ("params", object item.params)
    ∷ ("evidence", array (map evidence_value item.evidence))
    ∷ ("target_set", target_set_value item.target_set)
    ∷ ("policy_fingerprint", text item.policy_fingerprint)
    ∷ [])
item_value (non_executable item) = object (
    ("kind", text "non_executable")
    ∷ ("item_id", text item.item_id)
    ∷ ("evidence", array (map evidence_value item.evidence))
    ∷ ("reason", text item.reason)
    ∷ [])

-- `score.model_dump(mode="json")`
abbrev pub score_value : EvalScore → Value
score_value score = object (
    ("name", text score.name)
    ∷ ("score", float (pos score.score.0) score.score.1)
    ∷ ("passed", bool score.passed)
    ∷ ("rationale", text score.rationale)
    ∷ ("details", object score.details)
    ∷ [])

unfoldable pub plan_payload : String → String → String → String → String → List PlanItem → Value
plan_payload plan_id quality_run_id candidate policy environment items = object (
    ("plan_id", text plan_id)
    ∷ ("quality_run_id", text quality_run_id)
    ∷ ("candidate_fingerprint", text candidate)
    ∷ ("policy_fingerprint", text policy)
    ∷ ("warehouse_environment_id", text environment)
    ∷ ("items", array (map item_value items))
    ∷ [])

unfoldable pub plan_payload_fingerprint :
    Env → String → String → String → String → String → List PlanItem → String
plan_payload_fingerprint env plan_id quality_run_id candidate policy environment items =
    env.canonical_fingerprint
      (plan_payload plan_id quality_run_id candidate policy environment items)

unfoldable pub evaluation_payload :
    String → Option String → Option String → Bool → List EvalScore → List String → Value
evaluation_payload evaluation_id plan_id plan_fingerprint passed scores blocked_reasons = object (
    ("evaluation_id", text evaluation_id)
    ∷ ("plan_id", text? plan_id)
    ∷ ("plan_fingerprint", text? plan_fingerprint)
    ∷ ("passed", bool passed)
    ∷ ("scores", array (map score_value scores))
    ∷ ("blocked_reasons", array (map text blocked_reasons))
    ∷ [])

unfoldable pub evaluation_payload_fingerprint :
    Env → String → Option String → Option String → Bool → List EvalScore → List String → String
evaluation_payload_fingerprint env evaluation_id plan_id plan_fingerprint passed scores reasons =
    env.canonical_fingerprint
      (evaluation_payload evaluation_id plan_id plan_fingerprint passed scores reasons)

unfoldable pub decision_payload : HumanDecision → Value
decision_payload decision = object (
    ("decision_id", text decision.decision_id)
    ∷ ("decision", text (kind_text decision.decision))
    ∷ ("actor", text decision.actor)
    ∷ ("note", text? decision.note)
    ∷ ("decided_at", timestamp decision.decided_at)
    ∷ [])

unfoldable pub human_decision_fingerprint : Env → HumanDecision → String
human_decision_fingerprint env decision = env.canonical_fingerprint (decision_payload decision)

-- Every field of an admission but its own fingerprint.
unfoldable pub admission_payload : ApplyAdmission → Value
admission_payload a = object (
    ("admission_id", text a.admission_id)
    ∷ ("quality_run_id", text a.quality_run_id)
    ∷ ("plan_id", text a.plan_id)
    ∷ ("plan_fingerprint", text a.plan_fingerprint)
    ∷ ("evaluation_id", text a.evaluation_id)
    ∷ ("evaluation_fingerprint", text a.evaluation_fingerprint)
    ∷ ("decision_id", text a.decision_id)
    ∷ ("decision_event_id", text a.decision_event_id)
    ∷ ("policy_fingerprint", text a.policy_fingerprint)
    ∷ ("warehouse_environment_id", text a.warehouse_environment_id)
    ∷ ("issued_at", timestamp a.issued_at)
    ∷ ("expires_at", timestamp a.expires_at)
    ∷ [])

unfoldable pub admission_payload_fingerprint : Env → ApplyAdmission → String
admission_payload_fingerprint env admission =
    env.canonical_fingerprint (admission_payload admission)
