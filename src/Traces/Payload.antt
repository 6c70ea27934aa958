-- ===== src/Traces/Payload.antt =====
-- The dump of an audit event without its fingerprint, which is what its fingerprint is taken of.
use airflow_dq_agent.Prelude.{String, [], ◌∷◌, map, Option, none, some}
use airflow_dq_agent.Contracts.Value.{
  Value, null, text, text?, nat?, int?, timestamp, array, object, dict, field,
}
use airflow_dq_agent.Contracts.Decision.{EventKind, AppliedStepEvidence, AuditEvent}

abbrev pub event_kind_text : EventKind → String
event_kind_text EventKind.quality_report = "quality_report"
event_kind_text EventKind.candidate_proposal = "candidate_proposal"
event_kind_text EventKind.plan_compiled = "plan_compiled"
event_kind_text EventKind.plan_blocked = "plan_blocked"
event_kind_text EventKind.evaluation = "evaluation"
event_kind_text EventKind.approval_review = "approval_review"
event_kind_text EventKind.human_approved = "human_approved"
event_kind_text EventKind.human_rejected = "human_rejected"
event_kind_text EventKind.human_timed_out = "human_timed_out"
event_kind_text EventKind.dry_run = "dry_run"
event_kind_text EventKind.apply_succeeded = "apply_succeeded"
event_kind_text EventKind.apply_failed = "apply_failed"

abbrev value? : Option Value → Value
value? none = null
value? (some v) = v

abbrev step_value : AppliedStepEvidence → Value
step_value step = object (
    ("action_id", text step.action_id)
    ∷ ("table", text step.table)
    ∷ ("estimated_rows", int? step.estimated_rows)
    ∷ ("rowcount", int? step.rowcount)
    ∷ [])

-- `draft.model_dump(mode="json", exclude={"fingerprint"})`
unfoldable pub event_value : AuditEvent → Value
event_value e = object (
    ("event_id", text e.event_id)
    ∷ ("kind", text (event_kind_text e.kind))
    ∷ ("occurred_at", timestamp e.occurred_at)
    ∷ ("quality_run_id", text e.quality_run_id)
    ∷ ("predecessor_ids", array (map text e.predecessor_ids))
    ∷ ("report_id", text? e.report_id)
    ∷ ("report_fingerprint", text? e.report_fingerprint)
    ∷ ("proposal_id", text? e.proposal_id)
    ∷ ("candidate_fingerprint", text? e.candidate_fingerprint)
    ∷ ("plan_id", text? e.plan_id)
    ∷ ("plan_fingerprint", text? e.plan_fingerprint)
    ∷ ("policy_fingerprint", text? e.policy_fingerprint)
    ∷ ("target_count", nat? e.target_count)
    ∷ ("target_set_fingerprint", text? e.target_set_fingerprint)
    ∷ ("evaluation_id", text? e.evaluation_id)
    ∷ ("evaluation_fingerprint", text? e.evaluation_fingerprint)
    ∷ ("review_fingerprint", text? e.review_fingerprint)
    ∷ ("review_payload", value? e.review_payload)
    ∷ ("decision_id", text? e.decision_id)
    ∷ ("decision_fingerprint", text? e.decision_fingerprint)
    ∷ ("decision_outcome", text? e.decision_outcome)
    ∷ ("decision_actor", text? e.decision_actor)
    ∷ ("decision_note", text? e.decision_note)
    ∷ ("apply_result_id", text? e.apply_result_id)
    ∷ ("apply_result_fingerprint", text? e.apply_result_fingerprint)
    ∷ ("apply_steps", array (map step_value e.apply_steps))
    ∷ ("reasons", array (map text e.reasons))
    ∷ [])

abbrev with_fingerprint : String → Value → Value
with_fingerprint fingerprint (dict fs) = dict (field "fingerprint" (text fingerprint) fs)
with_fingerprint fingerprint v = v

-- `event.model_dump(mode="json")`
unfoldable pub event_body : AuditEvent → Value
unfolding event_value
event_body event = with_fingerprint event.fingerprint (event_value event)
