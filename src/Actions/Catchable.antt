-- ===== src/Actions/Catchable.antt =====
-- action_definitions.py: which exceptions the derivation of parameters raises.
use airflow_dq_agent.Prelude.{String, ◌≡◌, List, [], ◌∷◌, Option, none, some, All, All-get, get}
use airflow_dq_agent.Errors.{
  ok, Catchable, Catchable-ok, Catchable-key_error, Catchable-value_error, Catchable-bind,
  catchable_rules,
}
use airflow_dq_agent.Contracts.Value.{Params}
use airflow_dq_agent.Contracts.Tables.{
  TableContract, TableContracts, or_key_error, or_key_error-eq-ok, get_table_contract,
}
use airflow_dq_agent.Contracts.Remediations.{Problem}
use airflow_dq_agent.Quality.Registry.{CheckSpec, Catalog, CheckPolicy}
use airflow_dq_agent.Actions.{
  GovernedAction, derive_params, validate_params, validate_further, or_undeclared,
}
use airflow_dq_agent.Actions.Derive.{
  or_value_error, require_column, single_pk, only_key, derive_no_op, derive_nulls, derive_invalids,
  derive_orphans, derive_dedupe, derive_null_fill,
}
use airflow_dq_agent.Actions.Registered.{get_governed_action, governed_actions}

pub or_key_error-Catchable {ℓ} :
    {A : Type ℓ} (name : String) (o : Option A) → Catchable (or_key_error name o)
or_key_error-Catchable name none = Catchable-key_error name
or_key_error-Catchable name (some a) = Catchable-ok a

pub get_table_contract-Catchable :
    (contracts : TableContracts) (table : String) → Catchable (get_table_contract contracts table)
unfolding get_table_contract
get_table_contract-Catchable contracts table = or_key_error-Catchable table _

pub get_governed_action-Catchable : (name : String) → Catchable (get_governed_action name)
unfolding get_governed_action
get_governed_action-Catchable name = or_key_error-Catchable name _

or_value_error-Catchable {ℓ} :
    {A : Type ℓ} (message : String) (o : Option A) → Catchable (or_value_error message o)
or_value_error-Catchable message none = Catchable-value_error message
or_value_error-Catchable message (some a) = Catchable-ok a

only_key-Catchable : (keys : List String) → Catchable (only_key keys)
only_key-Catchable [] = search catchable_rules
only_key-Catchable (k ∷ []) = search catchable_rules
only_key-Catchable (k ∷ l ∷ ks) = search catchable_rules

single_pk-Catchable : (contract : TableContract) → Catchable (single_pk contract)
unfolding single_pk
single_pk-Catchable contract = only_key-Catchable contract.primary_key

require_column-Catchable :
    (spec : CheckSpec) (message : String) → Catchable (require_column spec message)
unfolding require_column
require_column-Catchable spec message = or_value_error-Catchable message spec.column

ruleset derive_rules =
    (catchable_rules, single_pk-Catchable, require_column-Catchable, or_value_error-Catchable)

-- An action whose `derive` raises nothing else, whatever it is given.
record DerivesCatchably (action : GovernedAction) : Type 0 where
  at :
      (spec : CheckSpec) (contract : TableContract) (params : Params)
      → Catchable (action.derive spec contract params)

registered-Catchable : All (λ entry. DerivesCatchably entry.1) governed_actions
unfolding governed_actions derive_no_op derive_nulls derive_invalids derive_orphans derive_dedupe
    derive_null_fill
registered-Catchable = (
  record { at = λ spec contract params. search derive_rules },
  (
    record { at = λ spec contract params. search derive_rules },
    (
      record { at = λ spec contract params. search derive_rules },
      (
        record { at = λ spec contract params. search derive_rules },
        (
          record { at = λ spec contract params. search derive_rules },
          (
            record { at = λ spec contract params. search derive_rules },
            (record { at = λ spec contract params. search derive_rules }, tt),
          ),
        ),
      ),
    ),
  ),
)

get_governed_action-DerivesCatchably :
    (name : String) (action : GovernedAction)
    → get_governed_action name ≡ ok action
    → DerivesCatchably action
unfolding get_governed_action
get_governed_action-DerivesCatchably name action h =
    (All-get (λ entry. DerivesCatchably entry.1) name governed_actions registered-Catchable
      (or_key_error-eq-ok name (get name governed_actions) h)).2

or_undeclared-Catchable : (o : Option CheckPolicy) → Catchable (or_undeclared o)
or_undeclared-Catchable none = search catchable_rules
or_undeclared-Catchable (some rule) = search catchable_rules

validate_further-Catchable :
    (catalog : Catalog) (action : GovernedAction) (table : String) (params : Params)
    (problems : List Problem)
    → Catchable (validate_further catalog action table params problems)
validate_further-Catchable catalog action table params [] =
    Catchable-bind _ _ (get_table_contract-Catchable catalog.table_contracts table)
      λ contract. Catchable-ok _
validate_further-Catchable catalog action table params (p ∷ ps) = Catchable-ok _

validate_params-Catchable :
    (catalog : Catalog) (action : GovernedAction) (table : String) (params : Params)
    → Catchable (validate_params catalog action table params)
unfolding validate_params
validate_params-Catchable catalog action table params =
    validate_further-Catchable catalog action table params _

-- A governed action that is found derives parameters or raises `KeyError` or `ValueError`.
pub derive_params-Catchable :
    (catalog : Catalog) (name : String) (action : GovernedAction) (spec : CheckSpec)
    → get_governed_action name ≡ ok action
    → Catchable (derive_params catalog action spec)
unfolding derive_params
derive_params-Catchable catalog name action spec h =
    let derives = (get_governed_action-DerivesCatchably name action h).at spec in
    search
      (
        catchable_rules, or_undeclared-Catchable, get_table_contract-Catchable, derives,
        validate_params-Catchable,
      )
      depth 12
