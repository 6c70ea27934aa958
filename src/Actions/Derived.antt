-- ===== src/Actions/Derived.antt =====
-- action_definitions.py: what derived parameters have gone through.
use airflow_dq_agent.Prelude.{◌≡◌, refl, false, List, [], ◌∷◌, Option, none, some, is_empty, not}
use airflow_dq_agent.Errors.{ok, value_error, >>=-eq-ok, refuse_if-eq-ok}
use airflow_dq_agent.Contracts.Value.{Params}
use airflow_dq_agent.Contracts.Tables.{TableContract, get_table_contract}
use airflow_dq_agent.Contracts.Remediations.{Problem}
use airflow_dq_agent.Quality.Registry.{CheckSpec, CheckPolicy, Catalog, rule_for}
use airflow_dq_agent.Actions.{
  GovernedAction, action_id, derive_params, validate_params, or_undeclared, unbindable,
}

-- What an action's derived parameters have gone through: the check declares the action, its table
-- is contracted, and validation finds nothing.
pub record IsDerived (catalog : Catalog) (action : GovernedAction) (spec : CheckSpec)
    (params : Params) : Type 0 where
  pub rule : CheckPolicy
  pub declared : rule_for spec (action_id action) ≡ some rule
  pub contract : TableContract
  pub contracted : get_table_contract catalog.table_contracts spec.table ≡ ok contract
  pub derived : action.derive spec contract rule.parameters ≡ ok params
  pub valid : validate_params catalog action contract.table params ≡ ok []

or_undeclared-eq-ok :
    (o : Option CheckPolicy) {rule : CheckPolicy} → or_undeclared o ≡ ok rule → o ≡ some rule
or_undeclared-eq-ok none h = cc
or_undeclared-eq-ok (some rule) h = cc

pub is_empty→nil : (problems : List Problem) → not (is_empty problems) ≡ false → problems ≡ []
is_empty→nil [] h = refl
is_empty→nil (p ∷ ps) h = cc

-- Parameters that are derived are declared by the check's policy, and pass validation on the table.
pub derive_params-IsDerived :
    (catalog : Catalog) (action : GovernedAction) (spec : CheckSpec) (params : Params)
    → derive_params catalog action spec ≡ ok params
    → IsDerived catalog action spec params
unfolding derive_params
derive_params-IsDerived catalog action spec params h =
    let (rule, declared, h₁) = >>=-eq-ok (or_undeclared (rule_for spec (action_id action))) _ h in
    let (contract, contracted, h₂) =
      >>=-eq-ok (get_table_contract catalog.table_contracts spec.table) _ h₁ in
    let (found, derived, h₃) = >>=-eq-ok (action.derive spec contract rule.parameters) _ h₂ in
    let (problems, checked, h₄) =
      >>=-eq-ok (validate_params catalog action contract.table found) _ h₃ in
    let (clean, same) =
      refuse_if-eq-ok (not (is_empty problems)) (value_error unbindable) (ok found) h₄ in
    let eq : found ≡ params = cc in
    let none_left : problems ≡ [] = is_empty→nil problems clean in
    record {
      rule = rule;
      declared = or_undeclared-eq-ok _ declared;
      contract = contract;
      contracted = contracted;
      derived = cc;
      valid = cc;
    }

-- Conversely, parameters that are declared and valid are what is derived.
pub IsDerived-derive_params :
    (catalog : Catalog) (action : GovernedAction) (spec : CheckSpec) (params : Params)
    → IsDerived catalog action spec params
    → derive_params catalog action spec ≡ ok params
unfolding derive_params
IsDerived-derive_params catalog action spec params d =
    rw (d.declared, d.contracted, d.derived, d.valid)
