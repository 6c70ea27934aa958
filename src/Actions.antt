-- ===== src/Actions.antt =====
-- action_definitions.py: the governed actions. One record owns an action's metadata, how its
-- parameters are derived from a check's policy, how they are validated, and how they are rendered.
pub mod Derive
pub mod Validate
pub mod Render
pub mod Registered
pub mod Derived
pub mod Controlled
pub mod Typed
pub mod Selection
pub mod Rerun
pub mod Frozen
pub mod Catchable
use airflow_dq_agent.Prelude.{String, Bool, true, false, List, Option, none, some, is_empty, not}
use airflow_dq_agent.Errors.{Result, ok, err, value_error, refuse_if, ◌>>=◌, ◌>>◌}
use airflow_dq_agent.Contracts.Value.{Params}
use airflow_dq_agent.Contracts.Tables.{TableContract, get_table_contract}
use airflow_dq_agent.Contracts.Remediations.{RemediationAction, Problem, validate_common_params}
use airflow_dq_agent.Environment.{Env}
use airflow_dq_agent.Actions.Render.{RenderedStep, RenderAction}
use airflow_dq_agent.Quality.Registry.{CheckPolicy, CheckSpec, rule_for, Catalog}

-- `DerivedParams` and `ValidateAction`
abbrev pub DerivedParams : Type 0
DerivedParams = CheckSpec → TableContract → Params → Result Params

abbrev pub ValidateAction : Type 0
ValidateAction = Catalog → TableContract → Params → List Problem

pub record GovernedAction : Type 0 where
  pub metadata : RemediationAction
  pub derive : DerivedParams
  pub validate : ValidateAction
  pub render : RenderAction

abbrev pub action_id : GovernedAction → String
action_id action = action.metadata.action_id

abbrev pub mutates : GovernedAction → Bool
mutates action = action.metadata.mutates

abbrev validate_further :
    Catalog → GovernedAction → String → Params → List Problem → Result (List Problem)
validate_further catalog action table params problems = elim (is_empty problems) [
  | true ↦ (do
    contract ← get_table_contract catalog.table_contracts table
    ok (action.validate catalog contract params))
  | false ↦ ok problems
]

unfoldable pub validate_params : Catalog → GovernedAction → String → Params → Result (List Problem)
validate_params catalog action table params =
    validate_further catalog action table params
      (validate_common_params catalog.table_contracts action.metadata table params)

abbrev pub or_undeclared : Option CheckPolicy → Result CheckPolicy
or_undeclared none = err (value_error "requested action is not declared by the check policy")
or_undeclared (some rule) = ok rule

abbrev pub unbindable : String
unbindable = "check policy does not produce a bindable controlled action"

unfoldable pub derive_params : Catalog → GovernedAction → CheckSpec → Result Params
derive_params catalog action spec = do
  rule ← or_undeclared (rule_for spec (action_id action))
  contract ← get_table_contract catalog.table_contracts spec.table
  params ← action.derive spec contract rule.parameters
  problems ← validate_params catalog action contract.table params
  refuse_if (not (is_empty problems)) (value_error unbindable)
  ok params

abbrev pub unrenderable : String
unrenderable = "Unrenderable remediation step"

-- `GovernedAction.render`
unfoldable pub render_action :
    Env
    → GovernedAction
    → (table : String) (params : Params) (run_id : String) → Result RenderedStep
render_action env action table params run_id = do
  problems ← validate_params env.catalog action table params
  refuse_if (not (is_empty problems)) (value_error unrenderable)
  contract ← get_table_contract env.catalog.table_contracts table
  action.render env action.metadata contract params run_id
