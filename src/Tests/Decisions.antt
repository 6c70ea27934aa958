-- ===== src/Tests/Decisions.antt =====
-- The theorems on human decisions, applied to the sample run.
use airflow_dq_agent.Prelude.{subst, ap, ◌≡◌, ◌↔◌, refl, List, [], ◌∷◌, none, some}
use airflow_dq_agent.Errors.{Result, ok, err, runtime_error}
use airflow_dq_agent.Contracts.Value.{text, Params}
use airflow_dq_agent.Contracts.Decision.{HumanDecision, AuditEvent}
use airflow_dq_agent.Hitl.{
  decided, parse_approval_output, validate_human_decision, prepare_decision, record_human_decision,
  audit_then_complete_approval,
}
use airflow_dq_agent.Hitl.Recorded.{IsRecordable, validate_human_decision_iff}
use airflow_dq_agent.Hitl.Audited.{
  IsBoundBy, record_human_decision-IsBoundBy, completed_after_audit, audit_before_completion,
}
use airflow_dq_agent.Traces.Lineage.{event, identifier}
use airflow_dq_agent.Hitl.Admitted.{recorded_approval-admitted}
use airflow_dq_agent.Planning.Admission.{verify_durable_approval}
use airflow_dq_agent.Tests.Samples.{env, value_or}
use airflow_dq_agent.Tests.Runs.{
  review, stamp, plan, evaluation, reviewed, binding, approvers, draw, approval, persist, recorded,
  decision, lookup, ttl,
}
use airflow_dq_agent.Tests.Stages.{succeeds, persisted-found}

validate_human_decision_iff_example :
    (validate_human_decision approvers approval ≡ ok approval)
    ↔ IsRecordable approvers approval approval.decision
validate_human_decision_iff_example = validate_human_decision_iff approvers approval

record_human_decision-IsBoundBy_example :
    (e : AuditEvent) × IsBoundBy env persist draw approvers plan.quality_run_id
      (event reviewed)
      binding
      (reviewed ∷ [])
      recorded.1
      decision
      e
record_human_decision-IsBoundBy_example =
    record_human_decision-IsBoundBy env persist draw approvers plan.quality_run_id (event reviewed)
      binding (decided approval) (reviewed ∷ []) recorded.1 decision succeeds.records

abbrev timed_out : Params
timed_out = ("timedout", text "yes") ∷ []

abbrev complete : List AuditEvent → Result (Unit {0}) × List AuditEvent
complete events = (ok tt, reviewed ∷ events)

abbrev finished : Result HumanDecision × List AuditEvent
finished =
    audit_then_complete_approval env persist draw approvers "run-1" (event reviewed) none complete
      timed_out []

abbrev timeout_decision : HumanDecision
timeout_decision = value_or approval finished.0

finishes : finished ≡ (ok timeout_decision, finished.1)
unfolding audit_then_complete_approval record_human_decision prepare_decision
    validate_human_decision parse_approval_output
finishes = refl

completed_after_audit_example :
    (t : List AuditEvent) × ((e : AuditEvent) × IsBoundBy env persist draw approvers "run-1"
        (event reviewed)
        none
        []
        t
        timeout_decision
        e)
    × (complete t ≡ (ok tt, finished.1))
completed_after_audit_example =
    completed_after_audit env persist draw approvers "run-1" (event reviewed) none complete
      timed_out [] finished.1 timeout_decision finishes

-- A provider that completes nothing before an event.
abbrev cautious : List AuditEvent → Result (Unit {0}) × List AuditEvent
cautious [] = (err (runtime_error "no audit event"), [])
cautious (e ∷ events) = complete (e ∷ events)

audit_before_completion_example :
    audit_then_complete_approval env persist draw approvers "run-1"
      (event reviewed)
      none
      complete
      timed_out
      []
    ≡ audit_then_complete_approval env persist draw approvers "run-1"
        (event reviewed)
        none
        cautious
        timed_out
        []
audit_before_completion_example =
    audit_before_completion env persist draw approvers "run-1" (event reviewed) none complete
      cautious timed_out []
      (λ t d e bound. subst (λ u. complete u ≡ cautious u) (ap (λ r. r.1) bound.persisted) refl)

recorded_approval-admitted_example :
    verify_durable_approval env plan evaluation decision ttl (some lookup) ≡ ok "event-5"
recorded_approval-admitted_example =
    recorded_approval-admitted env persist draw approvers plan evaluation review ttl
      (stamp "event-4" 40) (identifier "event-3") (decided approval) (reviewed ∷ []) recorded.1
      decision lookup succeeds.builds succeeds.review_text succeeds.event_text refl succeeds.stores
      persisted-found succeeds.records succeeds.is_approval
