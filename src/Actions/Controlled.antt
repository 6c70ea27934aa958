-- ===== src/Actions/Controlled.antt =====
-- action_definitions.py: what a rendered step is made of, and what of it depends on the run.
use airflow_dq_agent.Quality.Registry.{get_check_spec}
use airflow_dq_agent.Prelude.{
  sym, ap, String, ◌≡◌, refl, ◌∙◌, ap, true, false, not, List, [], ◌∷◌, none, some, get, All-get,
  All, is_empty,
}
use airflow_dq_agent.Errors.{
  ok-injective, Result, ok, value_error, ◌>>=◌, >>=-eq-ok, refuse_if-eq-ok,
}
use airflow_dq_agent.Contracts.Value.{Value, Params}
use airflow_dq_agent.Contracts.Tables.{
  TableContract, ColumnContract, column, get_table_contract, or_key_error-eq-ok,
}
use airflow_dq_agent.Contracts.Remediations.{RemediationAction}
use airflow_dq_agent.Environment.{Env}
use airflow_dq_agent.Actions.{GovernedAction, render_action, validate_params, unrenderable}
use airflow_dq_agent.Actions.Derive.{single_pk, only_key, or_value_error}
use airflow_dq_agent.Actions.Derived.{is_empty→nil}
use airflow_dq_agent.Actions.Registered.{governed_actions, get_governed_action}
use airflow_dq_agent.Actions.Render.{
  str_of, coerce_fill_value, RenderedStep, parameter, quarantine_queries, quarantine_step,
  render_no_op, render_nulls, render_invalids, render_orphans, render_dedupe, render_null_fill,
}
use airflow_dq_agent.Actions.Typed.{HasDtype, coerce_fill_value-HasDtype}
use airflow_dq_agent.Actions.Selection.{
  select_keys, copy_rows, fill_column, rows_of, null_condition, select_keys-null,
}

-- The three forms of a step. A step of an action that mutates nothing has neither a target query nor
-- a bound value. A copy inserts into the quarantine what its target query selects: both have one
-- table, join and condition. A fill updates one column where it is null, and selects that.
pub data IsControlled (action : RemediationAction) (contract : TableContract) (step : RenderedStep)
    : Type 0 where
  alerts :
      action.mutates ≡ false
      → step.target_sql ≡ none
      → step.params ≡ []
      → IsControlled action contract step
  copies :
      (pk where_clause join_clause : String)
      → action.mutates ≡ true
      → contract.primary_key ≡ pk ∷ []
      → step.sql ≡ copy_rows (rows_of contract pk join_clause where_clause)
      → step.target_sql ≡ some (select_keys (rows_of contract pk join_clause where_clause))
      → IsControlled action contract step
  fills :
      (pk name : String) (value : Value) (contracted : ColumnContract)
      → action.mutates ≡ true
      → contract.primary_key ≡ pk ∷ []
      → column contract name ≡ ok contracted
      → HasDtype contracted.dtype value
      → step.params ≡ ("fill_value", value) ∷ []
      → step.sql ≡ fill_column (rows_of contract pk "" (null_condition name)) name
      → step.target_sql ≡ some (select_keys (rows_of contract pk "" (null_condition name)))
      → IsControlled action contract step

only_key-eq-ok : (keys : List String) {pk : String} → only_key keys ≡ ok pk → keys ≡ pk ∷ []
only_key-eq-ok [] h = cc
only_key-eq-ok (key ∷ []) h = cc
only_key-eq-ok (key ∷ (other ∷ keys)) h = cc

single_pk-eq-ok :
    (contract : TableContract) {pk : String}
    → single_pk contract ≡ ok pk
    → contract.primary_key ≡ pk ∷ []
unfolding single_pk
single_pk-eq-ok contract h = only_key-eq-ok contract.primary_key h

-- A step's action and table are those it was rendered for, and its form is controlled.
pub record IsRendered (action : RemediationAction) (contract : TableContract) (step : RenderedStep)
    : Type 0 where
  pub own_action : step.action_id ≡ action.action_id
  pub own_table : step.table ≡ contract.table
  pub controlled : IsControlled action contract step

quarantine_step-IsRendered :
    (action : RemediationAction) (contract : TableContract)
    (where_clause run_id join_clause : String) (step : RenderedStep)
    → action.mutates ≡ true
    → quarantine_step action contract where_clause run_id join_clause ≡ ok step
    → IsRendered action contract step
unfolding quarantine_step quarantine_queries
quarantine_step-IsRendered action contract where_clause run_id join_clause step mutating h =
    let (pk, found, made) = >>=-eq-ok (single_pk contract) _ h in
    record {
      own_action = cc;
      own_table = cc;
      controlled =
          copies pk where_clause join_clause mutating (single_pk-eq-ok contract found) (cc) (cc);
    }

-- A rendering whose every outcome is controlled.
pub record RendersControlled (action : GovernedAction) : Type 0 where
  pub at :
      (env : Env) (contract : TableContract) (params : Params) (run_id : String)
      (step : RenderedStep)
      → action.render env action.metadata contract params run_id ≡ ok step
      → IsRendered action.metadata contract step

-- What holds of every rendering behind a computation holds of the whole.
after {ℓ} :
    {A : Type ℓ} {action : RemediationAction} {contract : TableContract} {step : RenderedStep}
    (m : Result A) (f : A → Result RenderedStep)
    → ((a : A) → f a ≡ ok step → IsRendered action contract step)
    → (m >>= f) ≡ ok step
    → IsRendered action contract step
after m f k h = let (a, _, made) = >>=-eq-ok m f h in k a made

module _ (env : Env) (action : RemediationAction) (contract : TableContract) (params : Params)
    (run_id : String) (step : RenderedStep) where
  render_no_op-IsRendered :
      action.mutates ≡ false
      → render_no_op env action contract params run_id ≡ ok step
      → IsRendered action contract step
  unfolding render_no_op
  render_no_op-IsRendered idle h = record {
    own_action = cc;
    own_table = cc;
    controlled = alerts idle (cc) (cc);
  }

  render_nulls-IsRendered :
      action.mutates ≡ true
      → render_nulls env action contract params run_id ≡ ok step
      → IsRendered action contract step
  unfolding render_nulls
  render_nulls-IsRendered mutating =
      after (parameter params "column") _
        λ column. quarantine_step-IsRendered action contract _ run_id "" step mutating

  render_invalids-IsRendered :
      action.mutates ≡ true
      → render_invalids env action contract params run_id ≡ ok step
      → IsRendered action contract step
  unfolding render_invalids
  render_invalids-IsRendered mutating h =
      let (check_id, _, h₁) = >>=-eq-ok (parameter params "check_id") _ h in
      let (spec, _, h₂) =
        >>=-eq-ok (get_check_spec env.catalog.check_specs (str_of env check_id)) _ h₁ in
      let (predicate, _, h₃) = >>=-eq-ok (or_value_error _ spec.quarantine_predicate) _ h₂ in
      quarantine_step-IsRendered action contract predicate run_id "" step mutating h₃

  render_orphans-IsRendered :
      action.mutates ≡ true
      → render_orphans env action contract params run_id ≡ ok step
      → IsRendered action contract step
  unfolding render_orphans
  render_orphans-IsRendered mutating h =
      let (ref_table, _, h₁) = >>=-eq-ok (parameter params "ref_table") _ h in
      let (ref, _, h₂) =
        >>=-eq-ok (get_table_contract env.catalog.table_contracts (str_of env ref_table)) _ h₁ in
      let (fk, _, h₃) = >>=-eq-ok (parameter params "fk_column") _ h₂ in
      let (name, _, h₄) = >>=-eq-ok (parameter params "ref_column") _ h₃ in
      quarantine_step-IsRendered action contract _ run_id _ step mutating h₄

  render_dedupe-IsRendered :
      action.mutates ≡ true
      → render_dedupe env action contract params run_id ≡ ok step
      → IsRendered action contract step
  unfolding render_dedupe
  render_dedupe-IsRendered mutating =
      after (parameter params "business_key") _
        λ key. after _ _ λ pk. quarantine_step-IsRendered action contract _ run_id "" step mutating

  render_null_fill-IsRendered :
      action.mutates ≡ true
      → render_null_fill env action contract params run_id ≡ ok step
      → IsRendered action contract step
  unfolding render_null_fill
  render_null_fill-IsRendered mutating h =
      let (named, _, h₁) = >>=-eq-ok (parameter params "column") _ h in
      let name = str_of env named in
      let (given, _, h₂) = >>=-eq-ok (parameter params "fill_value") _ h₁ in
      let (value, coerced, h₃) = >>=-eq-ok (coerce_fill_value env contract name given) _ h₂ in
      let (pk, found, made) = >>=-eq-ok (single_pk contract) _ h₃ in
      let (contracted, known, typed) =
        coerce_fill_value-HasDtype env contract name given value coerced in
      let same = ok-injective made in
      record {
        own_action = sym (ap (λ s. s.action_id) same);
        own_table = sym (ap (λ s. s.table) same);
        controlled =
            fills pk name value contracted mutating (single_pk-eq-ok contract found) known typed
              (sym (ap (λ s. s.params) same)) (sym (ap (λ s. s.sql) same))
              (sym (ap (λ s. s.target_sql) same) ∙ ap some (select_keys-null contract pk name));
      }

registered-RendersControlled : All (λ entry. RendersControlled entry.1) governed_actions
unfolding governed_actions
registered-RendersControlled = (
  record { at = λ e c p r s. render_no_op-IsRendered e _ c p r s refl },
  (
    record { at = λ e c p r s. render_nulls-IsRendered e _ c p r s refl },
    (
      record { at = λ e c p r s. render_invalids-IsRendered e _ c p r s refl },
      (
        record { at = λ e c p r s. render_null_fill-IsRendered e _ c p r s refl },
        (
          record { at = λ e c p r s. render_orphans-IsRendered e _ c p r s refl },
          (
            record { at = λ e c p r s. render_dedupe-IsRendered e _ c p r s refl },
            (record { at = λ e c p r s. render_no_op-IsRendered e _ c p r s refl }, tt),
          ),
        ),
      ),
    ),
  ),
)

-- What a step that is rendered has gone through.
pub record RendersValid (env : Env) (action : GovernedAction) (table : String) (params : Params)
    (step : RenderedStep) : Type 0 where
  pub contract : TableContract
  pub contracted : get_table_contract env.catalog.table_contracts table ≡ ok contract
  pub valid : validate_params env.catalog action table params ≡ ok []
  pub rendered : IsRendered action.metadata contract step

-- Whatever a governed action renders, for any parameters, was rendered of parameters that pass
-- validation on the contracted table, and bears that table and that action. A step of an action that
-- mutates nothing has no target query and binds nothing; the step of any other action either copies
-- into the quarantine just what its target query selects, the two sharing table, join and condition,
-- or fills one contracted column where it is null with a value of the column's type, and its target
-- query selects the rows where that column is null.
pub render_action-IsControlled :
    (env : Env) (name : String) (action : GovernedAction) (table : String) (params : Params)
    (run_id : String) (step : RenderedStep)
    → get_governed_action name ≡ ok action
    → render_action env action table params run_id ≡ ok step
    → RendersValid env action table params step
unfolding render_action get_governed_action
render_action-IsControlled env name action table params run_id step found h =
    let (problems, validated, h₁) =
      >>=-eq-ok (validate_params env.catalog action table params) _ h in
    let (clean, h₂) = refuse_if-eq-ok (not (is_empty problems)) (value_error unrenderable) _ h₁ in
    let (contract, contracted, h₃) =
      >>=-eq-ok (get_table_contract env.catalog.table_contracts table) _ h₂ in
    let renders =
      (All-get (λ entry. RendersControlled entry.1) name governed_actions
        registered-RendersControlled
        (or_key_error-eq-ok name (get name governed_actions) found)).2 in
    record {
      contract = contract;
      contracted = contracted;
      valid = validated ∙ ap ok (is_empty→nil problems clean);
      rendered = renders.at env contract params run_id step h₃;
    }
