-- ===== src/Apply/Recovery.antt =====
-- apply/executor.py: the committed result of an admission, read back and bound to the payloads.
pub mod Bound
pub mod Steps
pub mod Held
pub mod Recorded
use airflow_dq_agent.Prelude.{
  String, ◌≡◌, Bool, true, false, not, ◌&&◌, List, [], ◌∷◌, ◌++◌, Option, none, some, length,
  nat_eq, is_empty, Dict, ◌==◌, ◌!=◌,
}
use airflow_dq_agent.Errors.{
  Error, Result, ok, err, permission_error, value_error, type_error, Refusing, Reason,
  recovery_unbound, refuse_if, ◌>>=◌, ◌>>◌,
}
use airflow_dq_agent.Contracts.Value.{
  ℤ, pos, Value, null, text, bool, int, dict, list, Values, nil, cons, Fields, find_field, value_eq,
}
use airflow_dq_agent.Contracts.Plan.{ExecutablePlanItem, RemediationPlan, executable_items}
use airflow_dq_agent.Contracts.Evaluation.{EvalReport}
use airflow_dq_agent.Contracts.Decision.{ApplyAdmission}
use airflow_dq_agent.Actions.{render_action}
use airflow_dq_agent.Actions.Registered.{get_governed_action}
use airflow_dq_agent.Actions.Derive.{or_value_error}
use airflow_dq_agent.Actions.Render.{str_of}
use airflow_dq_agent.Environment.{Env}
use airflow_dq_agent.Apply.Results.{AppliedStep, ApplyResult, result_fingerprint}
use airflow_dq_agent.Warehouse.{
  Database, CommittedRow, transaction_read_only, CommitOutcome, committed, aborted, lost,
}

abbrev pub unbound : Error
unbound = permission_error Refusing.apply recovery_unbound

-- `body.get(key)`
abbrev pub body_get : Fields → String → Value
body_get body key = elim (find_field key body) [ none ↦ null | some v ↦ v ]

-- `json.loads(event_body) if isinstance(event_body, (str, bytes)) else event_body`; the driver gives
-- no bytes for a JSON column.
abbrev pub loaded : Env → Value → Result Value
loaded env (text s) = or_value_error "invalid JSON" (env.json_loads s)
loaded env v = ok v

abbrev pub as_fields : Value → Result Fields
as_fields (dict fs) = ok fs
as_fields v = err unbound

abbrev pub as_values : Value → Result Values
as_values (list vs) = ok vs
as_values v = err unbound

abbrev pub count_values : Values → List Value
count_values nil = []
count_values (cons v vs) = v ∷ count_values vs

-- `value if isinstance(value, int) else None`; a Boolean is an integer.
abbrev pub int_or_none : Value → Option ℤ
int_or_none (int z) = some z
int_or_none (bool true) = some (pos 1)
int_or_none (bool false) = some (pos 0)
int_or_none v = none

-- `isinstance(value, str) and value`
abbrev pub nonempty_text : Value → Result String
nonempty_text (text s) = do refuse_if (s == "") unbound; ok s
nonempty_text v = err unbound

abbrev pub bound : RemediationPlan → ApplyAdmission → Dict Value
bound plan admission =
    ("kind", text "apply_succeeded")
    ∷ ("quality_run_id", text plan.quality_run_id)
    ∷ ("plan_id", text plan.plan_id)
    ∷ ("plan_fingerprint", text plan.fingerprint)
    ∷ ("policy_fingerprint", text admission.policy_fingerprint)
    ∷ ("evaluation_id", text admission.evaluation_id)
    ∷ ("evaluation_fingerprint", text admission.evaluation_fingerprint)
    ∷ ("decision_id", text admission.decision_id)
    ∷ []

-- `for key, wanted in bound.items()`
unfoldable pub require_bound : Fields → Dict Value → Result (Unit {0})
require_bound body [] = ok tt
require_bound body ((key, wanted) ∷ rest) = do
  refuse_if (not (value_eq (body_get body key) wanted)) unbound
  require_bound body rest

-- The loop over `zip(executable, recorded_steps, strict=True)`; the lengths are equal by then.
unfoldable pub recover_steps :
    Env → String → List ExecutablePlanItem → List Value → Result (List AppliedStep)
recover_steps env run_id [] [] = ok []
recover_steps env run_id [] (entry ∷ entries) = err (value_error "zip")
recover_steps env run_id (item ∷ items) [] = err (value_error "zip")
recover_steps env run_id (item ∷ items) (entry ∷ entries) = do
  recorded ← as_fields entry
  refuse_if
      (not (
        value_eq (body_get recorded "action_id") (text item.action_id)
        && value_eq (body_get recorded "table") (text item.table)))
      unbound
  action ← get_governed_action item.action_id
  rendered ← render_action env action item.table item.params run_id
  steps ← recover_steps env run_id items entries
  ok (
      record {
        rendered = rendered;
        estimated_rows = int_or_none (body_get recorded "estimated_rows");
        rowcount = int_or_none (body_get recorded "rowcount");
      }
      ∷ steps)

-- The committed row, checked against the payloads.
unfoldable pub recover_row :
    Env → RemediationPlan → ApplyAdmission → CommittedRow → Result ApplyResult
unfolding recover_steps require_bound
recover_row env plan admission row = do
  decoded ← loaded env row.event_body
  body ← as_fields decoded
  refuse_if (not (value_eq row.plan_id (text plan.plan_id))) unbound
  require_bound body (bound plan admission)
  recorded ← as_values (body_get body "apply_steps")
  let recorded_steps = count_values recorded
  let executable = executable_items plan.items
  refuse_if (not (nat_eq (length recorded_steps) (length executable))) unbound
  let run_id = str_of env row.run_id
  steps ← recover_steps env run_id executable recorded_steps
  let recomputed = result_fingerprint env plan (some admission) run_id false steps
  refuse_if (not (value_eq (text recomputed) (body_get body "apply_result_fingerprint"))) unbound
  result_id ← nonempty_text (body_get body "apply_result_id")
  event_id ← nonempty_text (body_get body "event_id")
  ok (record {
    apply_result_id = result_id;
    fingerprint = some recomputed;
    audit_event_id = some event_id;
    run_id = run_id;
    dry_run = false;
    plan_id = some plan.plan_id;
    admission_id = some admission.admission_id;
    steps = steps;
  })

abbrev ended {ℓ} : {A : Type ℓ} → A → CommitOutcome → Result A
ended a committed = ok a
ended a (aborted e) = err e
ended a (lost e) = err e

abbrev recover_row? :
    Env → RemediationPlan → ApplyAdmission → Option CommittedRow → Result (Option ApplyResult)
recover_row? env plan admission none = ok none
recover_row? env plan admission (some row) = do
  result ← recover_row env plan admission row
  ok (some result)

module _ {S : Type 0} (env : Env) (database : Database S) where
  -- The lookup: a transaction of its own, which only reads.
  unfoldable pub committed_row : ApplyAdmission → S → Result (Option CommittedRow)
  committed_row admission s = do
    begun ← database.begin s
    reading ← database.set transaction_read_only begun
    row ← database.committed_apply_result admission.admission_id reading
    ended row (database.commit reading)

  unfoldable pub recover_committed_result :
      RemediationPlan → ApplyAdmission → S → Result (Option ApplyResult)
  unfolding recover_row committed_row
  recover_committed_result plan admission s = do
    row ← committed_row admission s
    recover_row? env plan admission row
