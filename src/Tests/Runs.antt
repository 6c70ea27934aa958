-- ===== src/Tests/Runs.antt =====
-- The run, stage by stage: report, plan, evaluation, review, decision and admission.
use airflow_dq_agent.Prelude.{ℕ, String, false, List, [], ◌∷◌, Option, none, some, find, ◌==◌}
use airflow_dq_agent.Errors.{Result, ok}
use airflow_dq_agent.Contracts.Report.{QualitySuiteReport}
use airflow_dq_agent.Contracts.Plan.{RemediationPlan}
use airflow_dq_agent.Contracts.Evaluation.{EvalReport, ApprovalReview}
use airflow_dq_agent.Contracts.Decision.{
  DecisionKind, HumanDecision, DecisionBinding, ApplyAdmission, AuditEvent,
}
use airflow_dq_agent.Environment.{report_payload_fingerprint}
use airflow_dq_agent.Planning.Compiler.{compile_remediation_plan, assemble_plan}
use airflow_dq_agent.Planning.Review.{Timedelta, build_approval_review}
use airflow_dq_agent.Planning.Admission.{
  AuditLineageLookup, create_apply_admission, build_admission,
}
use airflow_dq_agent.Evals.Plan.{evaluate_plan, plan_report}
use airflow_dq_agent.Traces.Lineage.{Stamp, event, identifier, review_event}
use airflow_dq_agent.Hitl.{decided, Draw, record_human_decision}
use airflow_dq_agent.Hitl.Admitted.{binding_of}
use airflow_dq_agent.Tests.Store.{resolver}
use airflow_dq_agent.Tests.Samples.{env, at, report_of, failures, proposal, value_or}

abbrev pub report : QualitySuiteReport
report = report_of (some (report_payload_fingerprint env (report_of none failures))) failures

abbrev pub compiled : Result RemediationPlan
compiled = compile_remediation_plan env resolver none "plan-1" (at 20) report proposal

abbrev pub plan : RemediationPlan
plan = value_or (assemble_plan env resolver none "" (at 0) report proposal []) compiled

abbrev pub evaluated : EvalReport
evaluated = value_or (plan_report env "" plan []) (evaluate_plan env "evaluation-1" plan)

-- The evaluation, with its audit event.
abbrev pub evaluation : EvalReport
evaluation = record evaluated { audit_event_id = some "event-3" }

-- The time to live is shorter than any in use.
abbrev pub ttl : Timedelta
ttl = 100000000

abbrev blank_review : ApprovalReview
blank_review = record {
  plan_id = "";
  plan_fingerprint = "";
  policy_fingerprint = "";
  quality_run_id = "";
  items = [];
  evaluation_id = "";
  evaluation_fingerprint = "";
  evaluation_passed = false;
  evaluation_scores = [];
  admission_ttl_hours = (0, 1);
  expiry_guidance = "";
  fingerprint = "";
}

abbrev pub review : ApprovalReview
review = value_or blank_review (build_approval_review env plan evaluation ttl)

abbrev pub stamp : String → ℕ → Stamp
stamp event_id micros = record { event_id = event_id; occurred_at = at micros }

abbrev pub reviewed : AuditEvent
reviewed = review_event env (stamp "event-4" 40) review evaluation (identifier "event-3")

abbrev pub binding : Option DecisionBinding
binding = binding_of plan evaluation review

abbrev pub approvers : List String
approvers = "ann" ∷ []

abbrev pub draw : Draw
draw = record { decision_id = "decision-1"; now = at 50; stamp = stamp "event-5" 60 }

abbrev pub approval : HumanDecision
approval = record {
  decision_id = "decision-1";
  fingerprint = none;
  review_fingerprint = none;
  audit_event_id = none;
  decided_at = at 50;
  decision = DecisionKind.approve;
  actor = "ann";
  note = some "reviewed";
}

abbrev pub persist : AuditEvent → List AuditEvent → Result (Unit {0}) × List AuditEvent
persist e events = (ok tt, e ∷ events)

abbrev pub recorded : Result HumanDecision × List AuditEvent
recorded =
    record_human_decision env persist draw approvers plan.quality_run_id (event reviewed) binding
      (decided approval) (reviewed ∷ [])

abbrev pub decision : HumanDecision
decision = value_or approval recorded.0

abbrev pub lookup : AuditLineageLookup
lookup id = find (λ e. e.event_id == id) recorded.1

abbrev pub admitted : Result ApplyAdmission
admitted =
    create_apply_admission env "admission-1" (at 120) plan evaluation decision report ttl
      (some lookup)

abbrev pub admission : ApplyAdmission
admission = value_or (build_admission env "" (at 0) (at 0) plan evaluation "" decision "") admitted

abbrev pub first_event : List AuditEvent → AuditEvent
first_event [] = reviewed
first_event (e ∷ events) = e
