-- ===== src/Planning/Admission.antt =====
-- planning/admission.py: the time-bounded authorization of one approved plan.
mod Durable
pub mod Conflicts
pub mod Approved
pub mod Authorized
unfoldable pub use Durable.*
use airflow_dq_agent.Prelude.{
  ℕ, ◌+◌, String, Bool, true, false, not, ◌&&◌, ◌||◌, List, [], ◌∷◌, ◌++◌, map, Option, none, some,
  ◌==◌, ◌!=◌, member, any, all, option_eq, sorted, text_leb, list_eq, ltb, leb, is_empty, strip,
  if◌then◌else◌,
}
use airflow_dq_agent.Errors.{
  Error, Result, ok, err, permission_error, type_error, Refusing, Reason, plan_blocked,
  evaluation_failed, not_an_approval, no_audit_event, no_lookup, event_not_found,
  event_not_approval, decision_not_in_lineage, other_quality_run, other_plan, other_actor,
  other_evaluation, review_not_bound, no_predecessor, review_not_found, review_other_evaluation,
  decided_after_admission, admission_expired, duplicate_items, shared_evidence,
  conflicting_mutations, refuse_if, ◌>>=◌, ◌>>◌,
}
use airflow_dq_agent.Contracts.Value.{Datetime}
use airflow_dq_agent.Contracts.Report.{QualitySuiteReport}
use airflow_dq_agent.Contracts.Plan.{
  QualityEvidence, ExecutablePlanItem, RemediationPlan, executable_items,
}
use airflow_dq_agent.Contracts.Evaluation.{EvalReport, ApprovalReview}
use airflow_dq_agent.Contracts.Decision.{
  HumanDecision, is_approve, ApplyAdmission, EventKind, AuditEvent,
}
use airflow_dq_agent.Actions.{mutates}
use airflow_dq_agent.Actions.Registered.{get_governed_action}
use airflow_dq_agent.Environment.{Env}
use airflow_dq_agent.Planning.Payload.{admission_payload_fingerprint}
use airflow_dq_agent.Planning.Integrity.{
  present, verify_report_integrity, verify_plan_integrity, verify_evaluation_integrity,
  verify_decision_integrity, verify_executable_params,
}
use airflow_dq_agent.Planning.Review.{Timedelta, build_approval_review}

-- `(item.action_id, item.table, tuple(sorted(check ids)))`
abbrev pub ItemIdentity : Type 0
ItemIdentity = String × String × List String

abbrev pub evidence_ids : ExecutablePlanItem → List String
evidence_ids item = map (λ e. e.check_id) item.evidence

abbrev pub item_identity : ExecutablePlanItem → ItemIdentity
item_identity item = (item.action_id, item.table, sorted text_leb (evidence_ids item))

abbrev pub item_identity_eq : ItemIdentity → ItemIdentity → Bool
item_identity_eq (a, t, xs) (b, u, ys) = a == b && (t == u && list_eq (λ x y. x == y) xs ys)

-- The inner loop: each cited check is new, and is added.
unfoldable pub add_evidence : List String → List String → Result (List String)
add_evidence checks [] = ok checks
add_evidence checks (check_id ∷ rest) = do
  refuse_if (member check_id checks) (refuse shared_evidence)
  add_evidence (check_id ∷ checks) rest

abbrev pub add_mutating_table : List String → String → Bool → Result (List String)
add_mutating_table tables table false = ok tables
add_mutating_table tables table true = do
  refuse_if (member table tables) (refuse conflicting_mutations)
  ok (table ∷ tables)

unfoldable pub refuse_conflicts :
    List ItemIdentity → List String → List String → List ExecutablePlanItem → Result (Unit {0})
unfolding add_evidence
refuse_conflicts seen checks tables [] = ok tt
refuse_conflicts seen checks tables (item ∷ items) = do
  refuse_if (any (item_identity_eq (item_identity item)) seen) (refuse duplicate_items)
  checks' ← add_evidence checks (evidence_ids item)
  action ← get_governed_action item.action_id
  tables' ← add_mutating_table tables item.table (mutates action)
  refuse_conflicts (item_identity item ∷ seen) checks' tables' items

unfoldable pub refuse_conflicting_plan_items : RemediationPlan → Result (Unit {0})
unfolding refuse_conflicts
refuse_conflicting_plan_items plan = refuse_conflicts [] [] [] (executable_items plan.items)

abbrev pub in_utc : Datetime → Datetime
in_utc t = record t { aware = true }

-- A comparison of a naive and an aware `datetime` raises `TypeError`.
abbrev pub require_comparable : Datetime → Result (Unit {0})
require_comparable t = refuse_if (not t.aware) type_error

abbrev pub later : Datetime → Timedelta → Datetime
later t ttl = record t { micros = t.micros + ttl }

abbrev pub build_admission :
    Env
    → String
    → Datetime
    → Datetime
    → RemediationPlan
    → EvalReport
    → String
    → HumanDecision
    → String
    → ApplyAdmission
build_admission env admission_id issued_at expires_at plan evaluation evaluation_fingerprint
      decision audit_event_id =
    let unsealed : ApplyAdmission = record {
      admission_id = admission_id;
      quality_run_id = plan.quality_run_id;
      plan_id = plan.plan_id;
      plan_fingerprint = plan.fingerprint;
      evaluation_id = evaluation.evaluation_id;
      evaluation_fingerprint = evaluation_fingerprint;
      decision_id = decision.decision_id;
      decision_event_id = audit_event_id;
      policy_fingerprint = plan.policy_fingerprint;
      warehouse_environment_id = plan.warehouse_environment_id;
      issued_at = issued_at;
      expires_at = expires_at;
      fingerprint = "";
    } in
    record unsealed { fingerprint = admission_payload_fingerprint env unsealed }

-- `admission_id` is the fresh `uuid4().hex`, and `issued_at` is `now` or the clock's reading.
unfoldable pub create_apply_admission :
    Env
    → String
    → Datetime
    → RemediationPlan
    → EvalReport
    → HumanDecision
    → QualitySuiteReport
    → Timedelta
    → Option AuditLineageLookup
    → Result ApplyAdmission
create_apply_admission env admission_id issued_at plan evaluation decision report ttl
      audit_repository =
    do
      verify_report_integrity env Refusing.admission report
      verify_plan_integrity env Refusing.admission plan
      refuse_if plan.blocked (refuse plan_blocked)
      verify_executable_params env Refusing.admission plan report
      refuse_if (not evaluation.passed) (refuse evaluation_failed)
      evaluation_fingerprint ← verify_evaluation_integrity env Refusing.admission plan evaluation
      refuse_if (not (is_approve decision.decision)) (refuse not_an_approval)
      audit_event_id ← verify_durable_approval env plan evaluation decision ttl audit_repository
      let decided_at = in_utc decision.decided_at
      require_comparable issued_at
      refuse_if (ltb issued_at.micros decided_at.micros) (refuse decided_after_admission)
      let expires_at = later decided_at ttl
      refuse_if (leb expires_at.micros issued_at.micros) (refuse admission_expired)
      refuse_conflicting_plan_items plan
      ok (
          build_admission env admission_id issued_at expires_at plan evaluation
            evaluation_fingerprint decision audit_event_id)
