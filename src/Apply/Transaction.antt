-- ===== src/Apply/Transaction.antt =====
-- apply/executor.py: the statements of the controlled transaction, for a mutation and for a dry run.
use airflow_dq_agent.Prelude.{
  ℕ, suc, String, Bool, true, false, not, ◌&&◌, List, [], ◌∷◌, map, Option, none, some, nat_eq,
  ◌==◌,
}
use airflow_dq_agent.Errors.{
  Error, Result, ok, err, permission_error, integrity_error, Refusing, admission_consumed,
  targets_changed, refuse_if,
}
use airflow_dq_agent.Contracts.Value.{ℤ, pos}
use airflow_dq_agent.Contracts.Report.{QualitySuiteReport}
use airflow_dq_agent.Contracts.Plan.{
  TargetSet, ExecutablePlanItem, RemediationPlan, executable_items,
}
use airflow_dq_agent.Contracts.Evaluation.{EvalReport}
use airflow_dq_agent.Contracts.Decision.{ApplyAdmission, AuditEvent}
use airflow_dq_agent.Actions.{GovernedAction, mutates, render_action}
use airflow_dq_agent.Actions.Registered.{get_governed_action}
use airflow_dq_agent.Actions.Render.{RenderedStep}
use airflow_dq_agent.Environment.{Env}
use airflow_dq_agent.Planning.Integrity.{verify_plan_integrity, verify_executable_params}
use airflow_dq_agent.Planning.Targets.{lock_and_resolve, resolve_item}
use airflow_dq_agent.Traces.Lineage.{Stamp, apply_result_event}
use airflow_dq_agent.Apply.Results.{
  AppliedStep, ApplyResult, Concluded, result_fingerprint, step_evidence, apply_record,
}
use airflow_dq_agent.Apply.Authority.{
  Runtime, Request, require_plan_admission, read_apply_clock, remaining_ms,
}
use airflow_dq_agent.Apply.Session.{
  Session, Statement, ◌>>=◌, ◌>>◌, lift, on_store, on_query, return, append_step,
}
use airflow_dq_agent.Warehouse.{
  Database, isolation_level_serializable, transaction_read_only, statement_timeout, lock_timeout,
}

-- The fresh values of a run: `uuid4().hex` for the result and for the run, and the identifiers and
-- times of its events.
pub record ApplyDraw : Type 0 where
  pub apply_result_id : String
  pub run_id : String
  pub stamp : Stamp
  pub failure_stamp : Stamp

abbrev pub consumed : Error
consumed = permission_error Refusing.apply admission_consumed

abbrev pub target_eq : TargetSet → TargetSet → Bool
target_eq a b = nat_eq a.count b.count && a.fingerprint == b.fingerprint

-- `except IntegrityError as exc: raise _AdmissionConsumed(…)`
abbrev pub consumed_on_conflict {ℓ} : {A : Type ℓ} → Result A → Result A
consumed_on_conflict (ok a) = ok a
consumed_on_conflict (err (integrity_error _)) = err consumed
consumed_on_conflict (err e) = err e

abbrev pub rendered_by :
    GovernedAction → Result RenderedStep → Result (GovernedAction × RenderedStep)
rendered_by action (err e) = err e
rendered_by action (ok step) = ok (action, step)

abbrev pub rendered_with :
    Result GovernedAction
    → (GovernedAction → Result RenderedStep)
    → Result (GovernedAction × RenderedStep)
rendered_with (err e) render = err e
rendered_with (ok action) render = rendered_by action (render action)

module _ {S : Type 0} (database : Database S) where
  abbrev pub executed : Session S → Result (Option ℤ × S) → Result (Option ℤ) × Session S
  executed session (ok (rowcount, s)) = (ok rowcount, record session { store = s })
  executed session (err e) = (err e, session)

  -- `0` unless the action mutates
  abbrev pub mutate : Bool → RenderedStep → Statement S (Option ℤ)
  mutate true rendered session =
      executed session (database.execute rendered.sql rendered.params session.store)
  mutate false rendered session = (ok (some (pos 0)), session)

  unfoldable pub set_controlled_transaction_mode : Bool → Statement S (Unit {0})
  set_controlled_transaction_mode true = do
    on_store (database.set isolation_level_serializable)
    on_store (database.set transaction_read_only)
  set_controlled_transaction_mode false = on_store (database.set isolation_level_serializable)

  unfoldable pub refuse_consumed_admission : ApplyAdmission → Statement S (Unit {0})
  refuse_consumed_admission admission = do
    used ← on_query (database.admission_consumed admission.admission_id)
    lift (refuse_if used consumed)

module _ {S : Type 0} (database : Database S) (runtime : Runtime) (request : Request) where
  -- The milliseconds left at the clock's next reading.
  abbrev pub read_remaining : ApplyAdmission → Statement S ℕ
  read_remaining admission session = (
    remaining_ms runtime request admission (read_apply_clock runtime request session.ticks),
    record session { ticks = suc session.ticks },
  )

  unfoldable pub arm_admission_deadline : ApplyAdmission → Statement S (Unit {0})
  arm_admission_deadline admission = do
    remaining ← read_remaining admission
    on_store (database.set (statement_timeout remaining))
    on_store (database.set (lock_timeout remaining))

module _ {S : Type 0} where
  -- The loop that resolves each item's targets again.
  unfoldable pub check_targets :
      (ExecutablePlanItem → S → Result TargetSet) → List ExecutablePlanItem → Statement S (Unit {0})
  check_targets resolve [] = return tt
  check_targets resolve (item ∷ items) = do
    actual_targets ← on_query (resolve item)
    lift (
        refuse_if (not (target_eq actual_targets item.target_set))
          (permission_error Refusing.apply targets_changed))
    check_targets resolve items

abbrev pub step_of : ExecutablePlanItem → RenderedStep → Option ℤ → AppliedStep
step_of item rendered rowcount = record {
  rendered = rendered;
  estimated_rows = some (pos item.target_set.count);
  rowcount = rowcount;
}

module _ {S : Type 0} (env : Env) (database : Database S) (runtime : Runtime) (request : Request)
    (run_id : String) where
  abbrev pub render_item : ExecutablePlanItem → Result (GovernedAction × RenderedStep)
  render_item item =
      rendered_with (get_governed_action item.action_id)
        λ action. render_action env action item.table item.params run_id

  unfoldable pub apply_item : ApplyAdmission → ExecutablePlanItem → Statement S (Unit {0})
  unfolding arm_admission_deadline
  apply_item admission item = do
    found ← lift (render_item item)
    arm_admission_deadline database runtime request admission
    rowcount ← mutate database (mutates found.0) found.1
    append_step (step_of item found.1 rowcount)

  unfoldable pub apply_items : ApplyAdmission → List ExecutablePlanItem → Statement S (Unit {0})
  unfolding apply_item
  apply_items admission [] = return tt
  apply_items admission (item ∷ items) = do apply_item admission item; apply_items admission items

  -- The same loop of a dry run, which estimates.
  unfoldable pub estimate_items : List ExecutablePlanItem → Statement S (Unit {0})
  estimate_items [] = return tt
  estimate_items (item ∷ items) = do
    found ← lift (render_item item)
    append_step (step_of item found.1 none)
    estimate_items items

module _ (env : Env) (plan : RemediationPlan) (evaluation : EvalReport) (draw : ApplyDraw)
    (run_id : String) where
  abbrev admission_id? : Option ApplyAdmission → Option String
  admission_id? none = none
  admission_id? (some admission) = some admission.admission_id

  abbrev pub event_of : Option ApplyAdmission → Bool → List AppliedStep → AuditEvent
  event_of admission dry_run steps =
      apply_result_event env draw.stamp plan evaluation admission draw.apply_result_id
        (result_fingerprint env plan admission run_id dry_run steps) dry_run
        (map step_evidence steps) [] false

  abbrev pub result_of : Option ApplyAdmission → Bool → List AppliedStep → ApplyResult
  result_of admission dry_run steps = record {
    apply_result_id = draw.apply_result_id;
    fingerprint = some (result_fingerprint env plan admission run_id dry_run steps);
    audit_event_id = some (event_of admission dry_run steps).event_id;
    run_id = run_id;
    dry_run = dry_run;
    plan_id = some plan.plan_id;
    admission_id = admission_id? admission;
    steps = steps;
  }

  abbrev pub concluded : {S : Type 0} → Option ApplyAdmission → Bool → Statement S Concluded
  concluded admission dry_run session = (
    ok (result_of admission dry_run session.steps, event_of admission dry_run session.steps),
    session,
  )

module _ {S : Type 0} (env : Env) (database : Database S) (runtime : Runtime) (request : Request)
    (plan : RemediationPlan) (evaluation : EvalReport) (report : QualitySuiteReport)
    (draw : ApplyDraw) (run_id : String) where
  abbrev pub recheck_plan : Refusing → Statement S (Unit {0})
  recheck_plan refusing = do
    lift (verify_plan_integrity env refusing plan)
    lift (verify_executable_params env refusing plan report)

  abbrev pub record_apply_result : ApplyAdmission → Concluded → Statement S (Unit {0})
  record_apply_result admission done = on_store λ s.
      consumed_on_conflict
        (database.record_apply_result (apply_record env done.1 done.0 plan admission) s)

  -- The end of the body: the result is recorded under a deadline of its own.
  abbrev pub conclude : ApplyAdmission → Concluded → Statement S Concluded
  conclude admission done = do
    arm_admission_deadline database runtime request admission
    record_apply_result admission done
    return done

  -- The body of `with database.begin()` for a mutation.
  unfoldable pub apply_statements : ApplyAdmission → Statement S Concluded
  unfolding set_controlled_transaction_mode arm_admission_deadline refuse_consumed_admission
      check_targets apply_items
  apply_statements admission = do
    set_controlled_transaction_mode database false
    arm_admission_deadline database runtime request admission
    lift (require_plan_admission env plan evaluation report admission)
    refuse_consumed_admission database admission
    check_targets (lock_and_resolve env database) (executable_items plan.items)
    recheck_plan Refusing.apply
    apply_items env database runtime request run_id admission (executable_items plan.items)
    done ← concluded env plan evaluation draw run_id (some admission) false
    conclude admission done

  -- The body for a dry run.
  unfoldable pub dry_run_statements : Option ApplyAdmission → Statement S Concluded
  unfolding set_controlled_transaction_mode check_targets estimate_items
  dry_run_statements admission = do
    set_controlled_transaction_mode database true
    check_targets (resolve_item env database) (executable_items plan.items)
    recheck_plan Refusing.dry_run
    estimate_items env database runtime request run_id (executable_items plan.items)
    concluded env plan evaluation draw run_id admission true
