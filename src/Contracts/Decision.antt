-- ===== src/Contracts/Decision.antt =====
-- contracts/models.py: human decisions, the admission that rests on one, and audit events.
use airflow_dq_agent.Prelude.{ℕ, String, Bool, true, false, List, Option}
use airflow_dq_agent.Contracts.Value.{ℤ, Value, Datetime}

pub data DecisionKind : Type 0 where
  approve reject timeout shadow_skip : DecisionKind

abbrev pub is_approve : DecisionKind → Bool
is_approve approve = true
is_approve _ = false

-- The literal that stands for the kind.
abbrev pub kind_text : DecisionKind → String
kind_text approve = "Approve"
kind_text reject = "Reject"
kind_text timeout = "Timeout"
kind_text shadow_skip = "shadow_skip"

pub record HumanDecision : Type 0 where
  pub decision_id : String
  pub fingerprint : Option String
  pub review_fingerprint : Option String
  pub audit_event_id : Option String
  pub decided_at : Datetime
  pub decision : DecisionKind
  pub actor : String
  pub note : Option String

pub record DecisionBinding : Type 0 where
  pub plan_id : Option String
  pub plan_fingerprint : Option String
  pub review_fingerprint : Option String
  pub evaluation_id : Option String
  pub evaluation_fingerprint : Option String

pub record ApplyAdmission : Type 0 where
  pub admission_id : String
  pub quality_run_id : String
  pub plan_id : String
  pub plan_fingerprint : String
  pub evaluation_id : String
  pub evaluation_fingerprint : String
  pub decision_id : String
  pub decision_event_id : String
  pub policy_fingerprint : String
  pub warehouse_environment_id : String
  pub issued_at : Datetime
  pub expires_at : Datetime
  pub fingerprint : String

pub record AppliedStepEvidence : Type 0 where
  pub action_id : String
  pub table : String
  pub estimated_rows : Option ℤ
  pub rowcount : Option ℤ

pub data EventKind : Type 0 where
  quality_report candidate_proposal plan_compiled plan_blocked evaluation approval_review :
      EventKind
  human_approved human_rejected human_timed_out dry_run apply_succeeded apply_failed : EventKind

pub record AuditEvent : Type 0 where
  pub event_id : String
  pub kind : EventKind
  pub occurred_at : Datetime
  pub quality_run_id : String
  pub predecessor_ids : List String
  pub report_id : Option String
  pub report_fingerprint : Option String
  pub proposal_id : Option String
  pub candidate_fingerprint : Option String
  pub plan_id : Option String
  pub plan_fingerprint : Option String
  pub policy_fingerprint : Option String
  pub target_count : Option ℕ
  pub target_set_fingerprint : Option String
  pub evaluation_id : Option String
  pub evaluation_fingerprint : Option String
  pub review_fingerprint : Option String
  pub review_payload : Option Value
  pub decision_id : Option String
  pub decision_fingerprint : Option String
  pub decision_outcome : Option String
  pub decision_actor : Option String
  pub decision_note : Option String
  pub apply_result_id : Option String
  pub apply_result_fingerprint : Option String
  pub apply_steps : List AppliedStepEvidence
  pub reasons : List String
  pub fingerprint : String
