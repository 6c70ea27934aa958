-- ===== src/Apply/Authority.antt =====
-- apply/executor.py: what a plan must have for a mutation, or for a dry run.
use airflow_dq_agent.Prelude.{
  ℕ, ◌-◌, String, Bool, true, false, not, ◌||◌, List, [], ◌∷◌, Option, none, some, ◌!=◌, ltb, leb,
  if◌then◌else◌,
}
use airflow_dq_agent.Errors.{
  Error, Result, ok, permission_error, type_error, Refusing, plan_blocked, evaluation_failed,
  policy_drifted, other_warehouse, admission_expired, refuse_if, ◌>>=◌, ◌>>◌,
}
use airflow_dq_agent.Contracts.Value.{Datetime}
use airflow_dq_agent.Contracts.Report.{QualitySuiteReport}
use airflow_dq_agent.Contracts.Plan.{PlanItem, executable, non_executable, RemediationPlan}
use airflow_dq_agent.Contracts.Evaluation.{EvalReport}
use airflow_dq_agent.Contracts.Decision.{ApplyAdmission}
use airflow_dq_agent.Environment.{Env}
use airflow_dq_agent.Planning.Integrity.{
  verify_report_integrity, verify_plan_integrity, verify_evaluation_integrity,
  verify_admission_integrity, verify_executable_params,
}
use airflow_dq_agent.Planning.Policy.{current_policy_fingerprint}

-- What the executor reads of its process: the clock of the system by the number of readings before,
-- `int(seconds * 1000)` in floating arithmetic of a number of microseconds, the environment's
-- identity in a DSN, which SQLAlchemy parses, and `settings.apply_dsn or settings.warehouse_dsn`.
pub record Runtime : Type 0 where
  pub system_clock : ℕ → Datetime
  pub milliseconds : ℕ → ℕ
  pub environment_id_from_dsn : String → String
  pub default_dsn : String

-- The optional arguments of `apply_plan`; `engine_url` is the engine's, where it has one.
pub record Request : Type 0 where
  pub warehouse_environment_id : Option String
  pub dsn : Option String
  pub engine_url : Option String
  pub run_id : Option String
  pub now : Option Datetime
  pub clock : Option (ℕ → Datetime)

-- `any(not isinstance(item, ExecutablePlanItem) for item in items)`
abbrev pub any_blocked : List PlanItem → Bool
any_blocked [] = false
any_blocked (executable item ∷ items) = any_blocked items
any_blocked (non_executable item ∷ items) = true

module _ (env : Env) (plan : RemediationPlan) (evaluation : EvalReport)
    (report : QualitySuiteReport) where
  -- The call without a connection; the consumption is checked behind it, with one.
  unfoldable pub require_plan_admission : ApplyAdmission → Result (Unit {0})
  require_plan_admission admission = do
    refuse_if (plan.blocked || any_blocked plan.items)
        (permission_error Refusing.apply plan_blocked)
    refuse_if (not evaluation.passed) (permission_error Refusing.apply evaluation_failed)
    verify_report_integrity env Refusing.apply report
    verify_plan_integrity env Refusing.apply plan
    fingerprint ← verify_evaluation_integrity env Refusing.apply plan evaluation
    verify_admission_integrity env Refusing.apply plan evaluation admission
    current_policy ← current_policy_fingerprint env plan
    refuse_if
        (current_policy != plan.policy_fingerprint
          || current_policy != admission.policy_fingerprint)
        (permission_error Refusing.apply policy_drifted)
    verify_executable_params env Refusing.apply plan report

  unfoldable pub require_dry_run : Result (Unit {0})
  require_dry_run = do
    refuse_if (plan.blocked || any_blocked plan.items)
        (permission_error Refusing.dry_run plan_blocked)
    refuse_if (not evaluation.passed) (permission_error Refusing.dry_run evaluation_failed)
    verify_report_integrity env Refusing.dry_run report
    verify_plan_integrity env Refusing.dry_run plan
    fingerprint ← verify_evaluation_integrity env Refusing.dry_run plan evaluation
    current_policy ← current_policy_fingerprint env plan
    refuse_if (current_policy != plan.policy_fingerprint)
        (permission_error Refusing.dry_run policy_drifted)
    verify_executable_params env Refusing.dry_run plan report

-- The order of two times, and their difference, of which only one has a zone raise `TypeError`.
abbrev pub require_same_zone : Datetime → Datetime → Result (Unit {0})
require_same_zone a b = refuse_if (if a.aware then not b.aware else b.aware) type_error

abbrev pub expired : Error
expired = permission_error Refusing.apply admission_expired

module _ (runtime : Runtime) (request : Request) where
  abbrev identify : Option String → Option String → Option String → String
  identify (some id) dsn url = id
  identify none (some dsn) url = runtime.environment_id_from_dsn dsn
  identify none none (some url) = runtime.environment_id_from_dsn url
  identify none none none = runtime.environment_id_from_dsn runtime.default_dsn

  unfoldable pub resolve_apply_warehouse_environment_id : String
  resolve_apply_warehouse_environment_id =
      identify request.warehouse_environment_id request.dsn request.engine_url

  unfoldable pub require_apply_warehouse_environment :
      RemediationPlan → ApplyAdmission → Result (Unit {0})
  unfolding resolve_apply_warehouse_environment_id
  require_apply_warehouse_environment plan admission =
      let applied = resolve_apply_warehouse_environment_id in
      refuse_if
        (applied != plan.warehouse_environment_id || applied != admission.warehouse_environment_id)
        (permission_error Refusing.apply other_warehouse)

  -- The reading after `ticks` others.
  abbrev clock_or_now : Option (ℕ → Datetime) → Option Datetime → ℕ → Datetime
  clock_or_now (some clock) now ticks = clock ticks
  clock_or_now none (some now) ticks = now
  clock_or_now none none ticks = runtime.system_clock ticks

  unfoldable pub read_apply_clock : ℕ → Datetime
  read_apply_clock ticks = clock_or_now request.clock request.now ticks

  -- The milliseconds that are left to the admission. Behind the expiry the difference is negative,
  -- and refused by its order.
  unfoldable pub remaining_ms : ApplyAdmission → Datetime → Result ℕ
  remaining_ms admission reading = do
    require_same_zone admission.expires_at reading
    let remaining = runtime.milliseconds (admission.expires_at.micros - reading.micros)
    refuse_if (ltb admission.expires_at.micros reading.micros || leb remaining 0) expired
    ok remaining
