-- ===== src/Planning/Admission/Durable.antt =====
-- planning/admission.py: the approval that a decision names, resolved against the audit lineage.
use airflow_dq_agent.Prelude.{
  String, Bool, true, false, not, ◌||◌, List, [], ◌∷◌, Option, none, some, ◌==◌, ◌!=◌, option_eq,
  list_eq, strip, if◌then◌else◌,
}
use airflow_dq_agent.Errors.{
  Error, Result, ok, err, permission_error, Refusing, Reason, no_audit_event, no_lookup,
  event_not_found, event_not_approval, decision_not_in_lineage, other_quality_run, other_plan,
  other_actor, other_evaluation, review_not_bound, no_predecessor, review_not_found,
  review_other_evaluation, refuse_if, ◌>>=◌, ◌>>◌,
}
use airflow_dq_agent.Contracts.Plan.{RemediationPlan}
use airflow_dq_agent.Contracts.Evaluation.{EvalReport}
use airflow_dq_agent.Contracts.Decision.{HumanDecision, EventKind, AuditEvent}
use airflow_dq_agent.Environment.{Env}
use airflow_dq_agent.Planning.Integrity.{present, verify_decision_integrity}
use airflow_dq_agent.Planning.Review.{Timedelta, build_approval_review}

-- `AuditLineageLookup`: the durable events by identifier.
abbrev pub AuditLineageLookup : Type 0
AuditLineageLookup = String → Option AuditEvent

abbrev pub refuse : Reason → Error
refuse = permission_error Refusing.admission

abbrev pub required {ℓ} : {A : Type ℓ} → Reason → Option A → Result A
required reason none = err (refuse reason)
required reason (some a) = ok a

abbrev pub is_approval : EventKind → Bool
is_approval EventKind.human_approved = true
is_approval _ = false

abbrev pub is_review : EventKind → Bool
is_review EventKind.approval_review = true
is_review _ = false

-- `decision.audit_event_id`, if it is more than white space
abbrev pub durable_event_id : Option String → Result String
durable_event_id none = err (refuse no_audit_event)
durable_event_id (some s) = do refuse_if (strip s == "") (refuse no_audit_event); ok s

abbrev pub first_predecessor : List String → Result String
first_predecessor [] = err (refuse no_predecessor)
first_predecessor (p ∷ ps) = ok p

-- `predecessor.predecessor_ids != [evaluation.audit_event_id]`
abbrev pub follows_evaluation : Option String → List String → Bool
follows_evaluation none predecessors = true
follows_evaluation (some id) predecessors =
    if id != "" then list_eq (λ a b. a == b) predecessors (id ∷ []) else true

-- The event that the decision names.
unfoldable pub approval_event :
    HumanDecision → Option AuditLineageLookup → Result (String × AuditEvent × AuditLineageLookup)
approval_event decision audit_repository = do
  audit_event_id ← durable_event_id decision.audit_event_id
  lookup ← required no_lookup audit_repository
  event ← required event_not_found (lookup audit_event_id)
  refuse_if (event.event_id != audit_event_id) (refuse event_not_found)
  ok (audit_event_id, event, lookup)

-- The event is an approval, of this decision, run, plan and actor.
unfoldable pub verify_approval_event :
    Env → RemediationPlan → EvalReport → HumanDecision → AuditEvent → Result (Unit {0})
verify_approval_event env plan evaluation decision event = do
  refuse_if
      (not (is_approval event.kind) || not (option_eq event.decision_outcome (some "Approve")))
      (refuse event_not_approval)
  refuse_if (not (option_eq event.decision_id (some decision.decision_id)))
      (refuse decision_not_in_lineage)
  refuse_if (event.quality_run_id != plan.quality_run_id) (refuse other_quality_run)
  refuse_if
      (not (option_eq event.plan_id (some plan.plan_id))
        || not (option_eq event.plan_fingerprint (some plan.fingerprint)))
      (refuse other_plan)
  refuse_if (not (option_eq event.decision_actor (some decision.actor))) (refuse other_actor)
  verify_decision_integrity env Refusing.admission decision event.decision_fingerprint
  refuse_if
      (not (option_eq event.evaluation_id (some evaluation.evaluation_id))
        || not (option_eq event.evaluation_fingerprint evaluation.fingerprint))
      (refuse other_evaluation)

-- The event before it is the review that the decision binds, rebuilt from the plan.
unfoldable pub verify_reviewed :
    Env
    → RemediationPlan
    → EvalReport
    → HumanDecision
    → Timedelta
    → AuditEvent
    → AuditLineageLookup
    → Result (Unit {0})
verify_reviewed env plan evaluation decision ttl event lookup = do
  review ← build_approval_review env plan evaluation ttl
  refuse_if
      (not (present decision.review_fingerprint)
        || (not (option_eq decision.review_fingerprint (some review.fingerprint))
            || not (option_eq event.review_fingerprint (some review.fingerprint))))
      (refuse review_not_bound)
  predecessor_id ← first_predecessor event.predecessor_ids
  predecessor ← required review_not_found (lookup predecessor_id)
  refuse_if (not (is_review predecessor.kind)) (refuse review_not_found)
  refuse_if
      (not (option_eq predecessor.review_fingerprint (some review.fingerprint))
        || (not (option_eq predecessor.evaluation_id (some evaluation.evaluation_id))
            || not (option_eq predecessor.evaluation_fingerprint evaluation.fingerprint)))
      (refuse review_other_evaluation)
  refuse_if (not (follows_evaluation evaluation.audit_event_id predecessor.predecessor_ids))
      (refuse review_other_evaluation)

unfoldable pub verify_durable_approval :
    Env
    → RemediationPlan
    → EvalReport
    → HumanDecision
    → Timedelta
    → Option AuditLineageLookup
    → Result String
unfolding approval_event verify_approval_event verify_reviewed
verify_durable_approval env plan evaluation decision ttl audit_repository = do
  (audit_event_id, event, lookup) ← approval_event decision audit_repository
  verify_approval_event env plan evaluation decision event
  verify_reviewed env plan evaluation decision ttl event lookup
  ok audit_event_id
