-- ===== src/Tests/Executions.antt =====
-- The theorems on rendering, target sets and the executor, applied to the sample run.
use airflow_dq_agent.Prelude.{◌≡◌, refl, false, some, ◌⊎◌, subst, sym}
use airflow_dq_agent.Errors.{ok}
use airflow_dq_agent.Actions.{render_action}
use airflow_dq_agent.Actions.Controlled.{RendersValid, render_action-IsControlled}
use airflow_dq_agent.Actions.Registered.{quarantine_nulls}
use airflow_dq_agent.Actions.Render.{RenderedStep}
use airflow_dq_agent.Actions.Rerun.{HasSameQueries, render_action-any_run}
use airflow_dq_agent.Apply.Atomic.{HasEffect, apply_plan-atomic}
use airflow_dq_agent.Apply.Live.{IsPaced, apply_statements-live}
use airflow_dq_agent.Apply.Once.{apply_plan-once}
use airflow_dq_agent.Apply.Recovery.{recover_row}
use airflow_dq_agent.Apply.Recovery.Bound.{IsBound, recover_row-IsBound}
use airflow_dq_agent.Apply.Recovery.Recorded.{recover_row-recorded}
use airflow_dq_agent.Apply.Transaction.{apply_statements}
use airflow_dq_agent.Planning.Targets.{Rows, selected_rows}
use airflow_dq_agent.Planning.Targets.Agreed.{resolved_targets-agree}
use airflow_dq_agent.Tests.Application.{commits}
use airflow_dq_agent.Tests.Applied.{
  runtime, request, draw, trail, world, before, ran, done, first, again, result, committed_row_of,
  item,
}
use airflow_dq_agent.Tests.Rendered.{texts-IsFlat, step, renders, distinct}
use airflow_dq_agent.Tests.Runs.{report, plan, evaluation, admission}
use airflow_dq_agent.Tests.Samples.{env}
use airflow_dq_agent.Tests.Store.{database, store, ledger}

apply_plan-atomic_example :
    (first.1.store ≡ world.store)
    ⊎ HasEffect env database trail runtime request plan evaluation report draw false
        (some admission)
        world
        first.1
apply_plan-atomic_example =
    apply_plan-atomic env database trail runtime request plan evaluation report draw false
      (some admission) world

apply_plan-once_example : (first.1.store ≡ world.store) ⊎ (again.1.store ≡ first.1.store)
apply_plan-once_example =
    apply_plan-once env database trail runtime ledger request request plan plan evaluation
      evaluation report report draw draw admission admission world commits.named_admission refl

apply_statements-live_example :
    IsPaced env database runtime request plan evaluation report draw "apply-1" admission before
      ran.1 done
apply_statements-live_example =
    apply_statements-live env database runtime request plan evaluation report draw "apply-1"
      admission before ran.1 done commits.runs

recover_row-IsBound_example : IsBound env plan admission committed_row_of result
recover_row-IsBound_example =
    recover_row-IsBound env plan admission committed_row_of result commits.rebuilds

recover_row-recorded_example : recover_row env plan admission committed_row_of ≡ ok result
recover_row-recorded_example =
    recover_row-recorded env database runtime request plan evaluation report draw admission
      committed_row_of before ran.1 done refl
      (subst
        (λ id.
          apply_statements env database runtime request plan evaluation report draw id admission
            before
          ≡ (ok done, ran.1))
        (sym commits.run_id) commits.runs)
      refl refl commits.named commits.logged commits.held

render_action-IsControlled_example : RendersValid env quarantine_nulls item.table item.params step
render_action-IsControlled_example =
    render_action-IsControlled env item.action_id quarantine_nulls item.table item.params "apply-1"
      step renders.governed renders.rendered

render_action-any_run_example :
    (other : RenderedStep) × (render_action env quarantine_nulls item.table item.params "apply-2"
      ≡ ok other)
    × HasSameQueries step other
render_action-any_run_example =
    render_action-any_run env item.action_id quarantine_nulls item.table item.params "apply-1"
      "apply-2" step renders.governed renders.rendered

resolved_targets-agree_example :
    (connected : _) × (rows : Rows) × (database.begin store ≡ ok connected)
    × (selected_rows env database step.target_sql step.target_params connected ≡ ok rows)
    × (selected_rows env database step.target_sql step.target_params first.1.store ≡ ok rows)
resolved_targets-agree_example =
    resolved_targets-agree env database item item.params "run-1" "invoice.amount" "apply-1" step
      item.target_set store first.1.store (texts-IsFlat item.params renders.texts) renders.frozen
      distinct renders.by_id renders.compiled renders.applied
