-- ===== src/Apply/Execution.antt =====
-- apply/executor.py: apply_plan, from the checks before the transaction to what follows it.
use airflow_dq_agent.Prelude.{
  ℕ, suc, String, Bool, true, false, List, [], ◌∷◌, Option, none, some, ltb, ◌==◌, if◌then◌else◌,
}
use airflow_dq_agent.Errors.{
  Error, Result, ok, err, permission_error, database_error, integrity_error, Refusing, Reason,
  admission_required, admission_consumed, admission_expired, consumed_unrecovered,
  concurrent_unrecovered, ◌>>◌,
}
use airflow_dq_agent.Contracts.Report.{QualitySuiteReport}
use airflow_dq_agent.Contracts.Plan.{RemediationPlan}
use airflow_dq_agent.Contracts.Evaluation.{EvalReport}
use airflow_dq_agent.Contracts.Decision.{ApplyAdmission, AuditEvent}
use airflow_dq_agent.Environment.{Env}
use airflow_dq_agent.Traces.Lineage.{apply_result_event, text_or}
use airflow_dq_agent.Apply.Results.{AppliedStep, ApplyResult, Concluded, result_fingerprint}
use airflow_dq_agent.Apply.Authority.{
  Runtime, Request, require_plan_admission, require_dry_run, require_apply_warehouse_environment,
  read_apply_clock, require_same_zone, expired,
}
use airflow_dq_agent.Apply.Recovery.{recover_committed_result}
use airflow_dq_agent.Apply.Session.{Session, Statement}
use airflow_dq_agent.Apply.Transaction.{ApplyDraw, apply_statements, dry_run_statements}
use airflow_dq_agent.Warehouse.{Database, CommitOutcome, committed, aborted, lost}

-- The committed store of the warehouse, the audit trail, and the number of clock readings taken.
pub record World (S T : Type 0) : Type 0 where
  pub store : S
  pub trail : T
  pub ticks : ℕ

-- `append_event`, and the supplementary sink
pub record Trail (T : Type 0) : Type 0 where
  pub append_event : AuditEvent → T → Result (Unit {0}) × T
  pub export : AuditEvent → T → Result (Unit {0}) × T

unfoldable pub is_serialization_failure : Error → Bool
is_serialization_failure (database_error sqlstate) = sqlstate == "40001"
is_serialization_failure (integrity_error sqlstate) = sqlstate == "40001"
is_serialization_failure _ = false

unfoldable pub is_expired_admission : Error → Bool
is_expired_admission (permission_error _ admission_expired) = true
is_expired_admission _ = false

-- `except _AdmissionConsumed`
abbrev pub is_consumed : Error → Bool
is_consumed (permission_error _ admission_consumed) = true
is_consumed _ = false

abbrev failure_reason : String
failure_reason = "controlled apply failed before a result could be admitted"

abbrev pub unrecovered : Reason → Error
unrecovered reason = permission_error Refusing.apply reason

-- How a transaction ends: its outcome, the store that is committed, the clock readings taken, and
-- the steps that were taken in it.
pub record Ended (S : Type 0) : Type 0 where
  pub outcome : Result Concluded
  pub store : S
  pub ticks : ℕ
  pub steps : List AppliedStep

module _ {S T : Type 0} (env : Env) (database : Database S) (trail : Trail T) (runtime : Runtime)
    (request : Request) (plan : RemediationPlan) (evaluation : EvalReport)
    (report : QualitySuiteReport) (draw : ApplyDraw) where
  abbrev pub resolved_run_id : String
  resolved_run_id = text_or request.run_id draw.run_id

  -- `with database.begin()`: an exception of the body or of the commit rolls the store back, but for
  -- a commit whose acknowledgement is lost.
  abbrev pub close : S → Concluded → Session S → CommitOutcome → Ended S
  close before done session committed = record {
    outcome = ok done;
    store = session.store;
    ticks = session.ticks;
    steps = session.steps;
  }
  close before done session (aborted e) = record {
    outcome = err e;
    store = before;
    ticks = session.ticks;
    steps = session.steps;
  }
  close before done session (lost e) = record {
    outcome = err e;
    store = session.store;
    ticks = session.ticks;
    steps = session.steps;
  }

  abbrev pub finish : S → Result Concluded × Session S → Ended S
  finish before (err e, session) = record {
    outcome = err e;
    store = before;
    ticks = session.ticks;
    steps = session.steps;
  }
  finish before (ok done, session) = close before done session (database.commit session.store)

  abbrev pub start : Statement S Concluded → S → ℕ → Result S → Ended S
  start body before ticks (err e) = record {
    outcome = err e;
    store = before;
    ticks = ticks;
    steps = [];
  }
  start body before ticks (ok s) =
      finish before (body (record { store = s; ticks = ticks; steps = [] }))

  unfoldable pub transaction : Statement S Concluded → S → ℕ → Ended S
  transaction body before ticks = start body before ticks (database.begin before)

  abbrev pub raised : Error → Result (Unit {0}) × T → S → ℕ → Result ApplyResult × World S T
  raised e (ok _, t) s ticks = (err e, record { store = s; trail = t; ticks = ticks })
  raised e (err f, t) s ticks = (err f, record { store = s; trail = t; ticks = ticks })

  -- `_emit_apply_failed(…)` and `raise`; an exception of the former takes its place.
  abbrev pub emit_apply_failed :
      Option ApplyAdmission
      → Bool
      → Error
      → List AppliedStep
      → World S T
      → Result ApplyResult × World S T
  emit_apply_failed admission dry_run e steps w =
      raised e
        (trail.append_event
          (apply_result_event env draw.failure_stamp plan evaluation admission draw.apply_result_id
            (result_fingerprint env plan admission resolved_run_id dry_run steps) dry_run []
            (failure_reason ∷ []) true)
          w.trail)
        w.store w.ticks

  abbrev pub exported :
      Result ApplyResult → S → ℕ → Result (Unit {0}) × T → Result ApplyResult × World S T
  exported result s ticks (_, t) = (result, record { store = s; trail = t; ticks = ticks })

  -- `_export_supplementary_apply_event(sink, event)`: its exceptions are logged and dropped.
  abbrev pub export_supplementary_apply_event :
      Concluded → World S T → Result ApplyResult × World S T
  export_supplementary_apply_event done w =
      exported (ok done.0) w.store w.ticks (trail.export done.1 w.trail)

  -- The committed result, or else an error.
  abbrev pub or_unrecovered : Error → Result (Option ApplyResult) → Result ApplyResult
  or_unrecovered e (err f) = err f
  or_unrecovered e (ok none) = err e
  or_unrecovered e (ok (some result)) = ok result

  unfoldable pub recovered_or : ApplyAdmission → Error → World S T → Result ApplyResult × World S T
  recovered_or admission e w =
      (or_unrecovered e (recover_committed_result env database plan admission w.store), w)

  -- The exception handlers of a mutation.
  unfoldable pub handle_apply :
      ApplyAdmission → Error → List AppliedStep → World S T → Result ApplyResult × World S T
  unfolding recovered_or is_serialization_failure is_expired_admission
  handle_apply admission e steps w =
      if is_consumed e
      then recovered_or admission (unrecovered consumed_unrecovered) w
      else if is_serialization_failure e
      then recovered_or admission (unrecovered concurrent_unrecovered) w
      else if is_expired_admission e
      then recovered_or admission e w
      else emit_apply_failed (some admission) false e steps w

  abbrev pub after_apply :
      ApplyAdmission
      → T
      → Result Concluded
      → S
      → ℕ
      → List AppliedStep
      → Result ApplyResult × World S T
  after_apply admission t (ok done) s ticks steps =
      export_supplementary_apply_event done (record { store = s; trail = t; ticks = ticks })
  after_apply admission t (err e) s ticks steps =
      handle_apply admission e steps (record { store = s; trail = t; ticks = ticks })

  unfoldable pub run_apply : ApplyAdmission → World S T → Result ApplyResult × World S T
  unfolding transaction handle_apply apply_statements
  run_apply admission w =
      let ended =
        transaction
          (apply_statements env database runtime request plan evaluation report draw resolved_run_id
            admission)
          w.store w.ticks in
      after_apply admission w.trail ended.outcome ended.store ended.ticks ended.steps

  -- An expired admission may still report what it committed; a failed lookup counts as none.
  abbrev pub expired_outcome : Result (Option ApplyResult) → Result ApplyResult
  expired_outcome (ok (some result)) = ok result
  expired_outcome (ok none) = err expired
  expired_outcome (err e) = err expired

  -- The checks before the transaction, with whether the admission has expired.
  abbrev pub admitted_before : ApplyAdmission → ℕ → Result Bool
  admitted_before admission ticks = do
    require_plan_admission env plan evaluation report admission
    require_apply_warehouse_environment runtime request plan admission
    let applied_at = read_apply_clock runtime request ticks
    require_same_zone applied_at admission.expires_at
    ok (ltb admission.expires_at.micros applied_at.micros)

  abbrev pub admitted_or_refused :
      ApplyAdmission → World S T → Result Bool → Result ApplyResult × World S T
  admitted_or_refused admission w (err e) = (err e, w)
  admitted_or_refused admission w (ok true) =
      (expired_outcome (recover_committed_result env database plan admission w.store), w)
  admitted_or_refused admission w (ok false) = run_apply admission w

  abbrev pub audited :
      Option ApplyAdmission
      → Concluded
      → List AppliedStep
      → S
      → ℕ
      → Result (Unit {0}) × T
      → Result ApplyResult × World S T
  audited admission done steps s ticks (ok _, t) =
      (ok done.0, record { store = s; trail = t; ticks = ticks })
  audited admission done steps s ticks (err e, t) =
      emit_apply_failed admission true e steps (record { store = s; trail = t; ticks = ticks })

  abbrev pub after_dry_run :
      Option ApplyAdmission
      → T
      → Result Concluded
      → S
      → ℕ
      → List AppliedStep
      → Result ApplyResult × World S T
  after_dry_run admission t (ok done) s ticks steps =
      audited admission done steps s ticks (trail.append_event done.1 t)
  after_dry_run admission t (err e) s ticks steps =
      emit_apply_failed admission true e steps (record { store = s; trail = t; ticks = ticks })

  unfoldable pub run_dry_run : Option ApplyAdmission → World S T → Result ApplyResult × World S T
  unfolding transaction dry_run_statements
  run_dry_run admission w =
      let ended =
        transaction
          (dry_run_statements env database runtime request plan evaluation report draw
            resolved_run_id admission)
          w.store w.ticks in
      after_dry_run admission w.trail ended.outcome ended.store ended.ticks ended.steps

  abbrev pub dry_run_or_refused :
      Option ApplyAdmission → World S T → Result (Unit {0}) → Result ApplyResult × World S T
  dry_run_or_refused admission w (err e) = (err e, w)
  dry_run_or_refused admission w (ok _) = run_dry_run admission w

  abbrev pub read : World S T → World S T
  read w = record w { ticks = suc w.ticks }

  unfoldable pub apply_plan :
      Bool → Option ApplyAdmission → World S T → Result ApplyResult × World S T
  unfolding run_apply run_dry_run
  apply_plan true admission w =
      dry_run_or_refused admission (read w) (require_dry_run env plan evaluation report)
  apply_plan false none w = (err (unrecovered admission_required), read w)
  apply_plan false (some admission) w =
      admitted_or_refused admission (read w) (admitted_before admission w.ticks)
