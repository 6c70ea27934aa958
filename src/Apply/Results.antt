-- ===== src/Apply/Results.antt =====
-- apply/executor.py: the result of an application, its fingerprint, and how it is recorded.
use airflow_dq_agent.Prelude.{String, Bool, List, [], ◌∷◌, map, Option, none, some}
use airflow_dq_agent.Contracts.Value.{ℤ, pos, ◌+ℤ◌, Value, text, text?, int?, bool, array, object}
use airflow_dq_agent.Contracts.Plan.{RemediationPlan, executable_items}
use airflow_dq_agent.Contracts.Decision.{ApplyAdmission, AppliedStepEvidence, AuditEvent}
use airflow_dq_agent.Actions.Render.{RenderedStep}
use airflow_dq_agent.Environment.{Env}
use airflow_dq_agent.Traces.Payload.{event_body, event_kind_text}
use airflow_dq_agent.Traces.Lineage.{total_targets}
use airflow_dq_agent.Warehouse.{ApplyRecord}

pub record AppliedStep : Type 0 where
  pub rendered : RenderedStep
  pub estimated_rows : Option ℤ
  pub rowcount : Option ℤ

pub record ApplyResult : Type 0 where
  pub apply_result_id : String
  pub fingerprint : Option String
  pub audit_event_id : Option String
  pub run_id : String
  pub dry_run : Bool
  pub plan_id : Option String
  pub admission_id : Option String
  pub steps : List AppliedStep

-- The result, with its event.
abbrev pub Concluded : Type 0
Concluded = ApplyResult × AuditEvent

abbrev pub admission_fingerprint? : Option ApplyAdmission → Value
admission_fingerprint? none = text? none
admission_fingerprint? (some admission) = text admission.fingerprint

abbrev pub step_payload : AppliedStep → Value
step_payload step = object (
    ("action_id", text step.rendered.action_id)
    ∷ ("table", text step.rendered.table)
    ∷ ("estimated_rows", int? step.estimated_rows)
    ∷ ("rowcount", int? step.rowcount)
    ∷ [])

unfoldable pub result_fingerprint :
    Env
    → RemediationPlan
    → Option ApplyAdmission
    → (run_id : String) (dry_run : Bool) → List AppliedStep
    → String
result_fingerprint env plan admission run_id dry_run steps = env.canonical_fingerprint (
    object (
      ("quality_run_id", text plan.quality_run_id)
      ∷ ("plan_fingerprint", text plan.fingerprint)
      ∷ ("admission_fingerprint", admission_fingerprint? admission)
      ∷ ("run_id", text run_id)
      ∷ ("dry_run", bool dry_run)
      ∷ ("steps", array (map step_payload steps))
      ∷ []))

-- `AppliedStepEvidence(…)` of a step
abbrev pub step_evidence : AppliedStep → AppliedStepEvidence
step_evidence step = record {
  action_id = step.rendered.action_id;
  table = step.rendered.table;
  estimated_rows = step.estimated_rows;
  rowcount = step.rowcount;
}

abbrev pub target_fingerprints : RemediationPlan → List Value
target_fingerprints plan =
    map (λ item. text item.target_set.fingerprint) (executable_items plan.items)

abbrev pub present_rowcounts : List AppliedStep → List ℤ
present_rowcounts [] = []
present_rowcounts (step ∷ steps) = elim step.rowcount [
  | none ↦ present_rowcounts steps
  | some n ↦ n ∷ present_rowcounts steps
]

-- `sum(rowcounts) if rowcounts else None`
abbrev pub total : List ℤ → ℤ
total [] = pos 0
total (n ∷ ns) = n +ℤ total ns

abbrev pub sum_or_none : List ℤ → Option ℤ
sum_or_none [] = none
sum_or_none (n ∷ ns) = some (total (n ∷ ns))

unfoldable pub apply_record :
    Env → AuditEvent → ApplyResult → RemediationPlan → ApplyAdmission → ApplyRecord
apply_record env event result plan admission = record {
  event_id = event.event_id;
  kind = event_kind_text event.kind;
  body = event_body event;
  run_id = result.run_id;
  plan_id = plan.plan_id;
  admission_id = admission.admission_id;
  item_id = "whole-plan";
  action_id = "whole_plan";
  table_name = "multiple";
  target_count = total_targets (executable_items plan.items);
  target_fingerprint = env.canonical_fingerprint (array (target_fingerprints plan));
  rowcount = sum_or_none (present_rowcounts result.steps);
}
