-- ===== src/Apply/Live.antt =====
-- apply/executor.py: the clock readings and the steps of a transaction that ends well.
use airflow_dq_agent.Prelude.{suc, ◌+◌, String, ◌≡◌, sym, ap, subst, ◌∙◌, [], ◌++◌, length, arith}
use airflow_dq_agent.Errors.{ok}
use airflow_dq_agent.Contracts.Report.{QualitySuiteReport}
use airflow_dq_agent.Contracts.Plan.{RemediationPlan, executable_items}
use airflow_dq_agent.Contracts.Evaluation.{EvalReport}
use airflow_dq_agent.Contracts.Decision.{ApplyAdmission}
use airflow_dq_agent.Environment.{Env}
use airflow_dq_agent.Apply.Results.{Concluded, apply_record}
use airflow_dq_agent.Apply.Authority.{Runtime, Request}
use airflow_dq_agent.Apply.Session.{Session}
use airflow_dq_agent.Apply.Progress.{AreStepsOf}
use airflow_dq_agent.Apply.Paced.{ArmedAt, Paced, IsArmed-ArmedAt, Applies-Paced}
use airflow_dq_agent.Apply.Session.Inversion.{with_store}
use airflow_dq_agent.Apply.Progress.Counted.{Applies-IsThrough}
use airflow_dq_agent.Apply.Transaction.{ApplyDraw, apply_statements}
use airflow_dq_agent.Apply.Transacted.{apply_statements-IsTransacted}
use airflow_dq_agent.Warehouse.{Database, isolation_level_serializable}

module _ {S : Type 0} (env : Env) (database : Database S) (runtime : Runtime) (request : Request)
    (plan : RemediationPlan) (evaluation : EvalReport) (report : QualitySuiteReport)
    (draw : ApplyDraw) (run_id : String) (admission : ApplyAdmission) where
  -- The stores of a mutation, from the start of its transaction to the recorded result.
  pub record IsPaced (before after : Session S) (done : Concluded) : Type 0 where
    pub serial : S
    pub serializable : database.set isolation_level_serializable before.store ≡ ok serial
    pub snapshot : S
    pub first : ArmedAt env database runtime request run_id admission before.ticks serial snapshot
    pub applied : S
    pub rounds :
        Paced env database runtime request run_id admission
          (executable_items plan.items)
          (suc before.ticks)
          snapshot
          applied
    pub armed : S
    pub last :
        ArmedAt env database runtime request run_id admission
          (suc before.ticks + length (executable_items plan.items))
          applied
          armed
    pub recorded :
        database.record_apply_result (apply_record env done.1 done.0 plan admission) armed
        ≡ ok after.store
    pub ticks : after.ticks ≡ before.ticks + (length (executable_items plan.items) + 2)

  -- Statements that end well have read the clock once for each item and twice more, every reading
  -- once and in order, and what they did to the store is this: they made the transaction
  -- serializable; then, for the snapshot, for each item and for the recording, they set both timeouts
  -- to the milliseconds that the reading taken for it leaves until the expiry, a positive number, and
  -- only in the store which that left did they execute the item's statement, if its action
  -- mutates, or record the result.
  pub apply_statements-live :
      (before after : Session S) (done : Concluded)
      → apply_statements env database runtime request plan evaluation report draw run_id admission
          before
        ≡ (ok done, after)
      → IsPaced before after done
  apply_statements-live before after done h =
      let t =
        apply_statements-IsTransacted env database runtime request plan evaluation report draw
          run_id admission before after done h in
      let items = executable_items plan.items in
      let through =
        Applies-IsThrough env database runtime request run_id admission items t.snapshot t.applied
          t.applies in
      let start : t.snapshot.ticks ≡ suc before.ticks = t.first_deadline.ticks in
      let middle : t.applied.ticks ≡ t.snapshot.ticks + length items = through.ticks in
      let end : after.ticks ≡ suc t.applied.ticks = t.ticks ∙ t.last_deadline.ticks in
      record {
        serial = t.serial;
        serializable = t.serializable;
        snapshot = t.snapshot.store;
        first =
            IsArmed-ArmedAt env database runtime request run_id admission
              (with_store before t.serial) t.snapshot t.first_deadline;
        applied = t.applied.store;
        rounds =
            subst
              (λ tick.
                Paced env database runtime request run_id admission items tick t.snapshot.store
                  t.applied.store)
              start
              (Applies-Paced env database runtime request run_id admission items t.snapshot
                t.applied t.applies);
        armed = t.armed.store;
        last =
            subst
              (λ tick.
                ArmedAt env database runtime request run_id admission tick t.applied.store
                  t.armed.store)
              (middle ∙ ap (λ n. n + length items) start)
              (IsArmed-ArmedAt env database runtime request run_id admission t.applied t.armed
                t.last_deadline);
        recorded = t.recorded;
        ticks = omega arith;
      }

  -- The result of statements that end well, from no step taken, has one step for each executable item
  -- of the plan, in order: the item rendered by its governed action for this run, with the number of
  -- rows that was approved.
  pub apply_statements-steps :
      (before after : Session S) (done : Concluded)
      → before.steps ≡ []
      → apply_statements env database runtime request plan evaluation report draw run_id admission
          before
        ≡ (ok done, after)
      → AreStepsOf env run_id (executable_items plan.items) done.0.steps
  apply_statements-steps before after done fresh h =
      let t =
        apply_statements-IsTransacted env database runtime request plan evaluation report draw
          run_id admission before after done h in
      let through =
        Applies-IsThrough env database runtime request run_id admission
          (executable_items plan.items) t.snapshot t.applied t.applies in
      let reached : done.0.steps ≡ t.applied.steps = ap (λ d. d.0.steps) t.concludes in
      let same : done.0.steps ≡ through.added =
        reached
        ∙ (through.steps ∙ ap (λ xs. xs ++ through.added) (t.first_deadline.steps ∙ fresh)) in
      subst (AreStepsOf env run_id (executable_items plan.items)) (sym same) through.own
