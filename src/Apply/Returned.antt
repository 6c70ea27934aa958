-- ===== src/Apply/Returned.antt =====
-- apply/executor.py: where the result that apply_plan returns comes from.
use airflow_dq_agent.Prelude.{String, ◌≡◌, some}
use airflow_dq_agent.Errors.{Result, ok}
use airflow_dq_agent.Contracts.Report.{QualitySuiteReport}
use airflow_dq_agent.Contracts.Plan.{RemediationPlan, executable_items}
use airflow_dq_agent.Contracts.Evaluation.{EvalReport}
use airflow_dq_agent.Contracts.Decision.{ApplyAdmission}
use airflow_dq_agent.Environment.{Env}
use airflow_dq_agent.Apply.Results.{ApplyResult}
use airflow_dq_agent.Apply.Authority.{Runtime, Request}
use airflow_dq_agent.Apply.Atomic.{IsCommitted}
use airflow_dq_agent.Apply.Execution.{World, Trail, resolved_run_id}
use airflow_dq_agent.Apply.Progress.{AreStepsOf}
use airflow_dq_agent.Apply.Recovery.{recover_committed_result}
use airflow_dq_agent.Apply.Transaction.{ApplyDraw}
use airflow_dq_agent.Warehouse.{Database}

module _ {S T : Type 0} (env : Env) (database : Database S) (trail : Trail T) (runtime : Runtime)
    (request : Request) (plan : RemediationPlan) (evaluation : EvalReport)
    (report : QualitySuiteReport) (draw : ApplyDraw) (admission : ApplyAdmission) where
  abbrev Outcome : Type 0
  Outcome = Result ApplyResult × World S T

  -- The result is what the database gives back for the admission.
  abbrev IsRecovered : S → ApplyResult → Type 0
  IsRecovered s result = recover_committed_result env database plan admission s ≡ ok (some result)

  abbrev run_id : String
  run_id = resolved_run_id env database trail runtime request plan evaluation report draw

  -- The result of a mutation that was committed now: one step for each item of the plan.
  pub record IsApplied (before after : World S T) (result : ApplyResult) : Type 0 where
    pub commits :
        IsCommitted env database trail runtime request plan evaluation report draw admission before
          after
    pub own : commits.done.0 ≡ result
    pub steps : AreStepsOf env run_id (executable_items plan.items) result.steps
