-- ===== src/Load.antt =====
-- load.py: a registry document replaces the process-wide catalogs. Reading the file, YAML, and the
-- validation of a document's fields by pydantic are parameters.
pub mod Loaded
use airflow_dq_agent.Prelude.{
  String, Bool, true, false, List, [], ◌∷◌, Option, none, some, get, has_key, if◌then◌else◌,
}
use airflow_dq_agent.Errors.{
  Error, Result, ok, err, key_error, value_error, is_key_or_value_error, refuse_if, try_except,
}
use airflow_dq_agent.Contracts.Tables.{
  TableContract, TableContracts, register_contract, get_table_contract,
}
use airflow_dq_agent.Contracts.Value.{Value, text, Params}
use airflow_dq_agent.Actions.{GovernedAction}
use airflow_dq_agent.Actions.Registered.{get_governed_action}
use airflow_dq_agent.Quality.Construction.{model_post_init}
use airflow_dq_agent.Quality.Registration.{register_check}
use airflow_dq_agent.Quality.Registry.{CheckPolicy, CheckSpec, Catalog}
use airflow_dq_agent.Stateful.{Action, ◌>>=◌, ◌>>◌, lift, return}

-- `_RegistryDocument`: the checks are still dictionaries.
pub record RegistryDocument : Type 0 where
  pub tables : List TableContract
  pub checks : List Params

-- `except (KeyError, ValueError) as exc: raise ValueError(…)`
abbrev pub named_error {ℓ} : {A : Type ℓ} → Result A → Result A
named_error m =
    try_except m λ e. if is_key_or_value_error e then err (value_error "invalid entry") else err e

abbrev pub contracts_or_error : Catalog → Result TableContracts → Result (Unit {0}) × Catalog
contracts_or_error catalog (ok contracts) = (ok tt, record catalog { table_contracts = contracts })
contracts_or_error catalog (err e) = (err (value_error "invalid table"), catalog)

-- `register_contract(contract)`, which raises nothing but `ValueError`
abbrev pub load_table : TableContract → Action Catalog (Unit {0})
load_table contract catalog =
    contracts_or_error catalog (register_contract contract catalog.table_contracts)

unfoldable pub load_tables : List TableContract → Action Catalog (Unit {0})
load_tables [] = return tt
load_tables (contract ∷ contracts) = do load_table contract; load_tables contracts

-- A table that is a text must be contracted.
abbrev pub require_table : TableContracts → Option Value → Result (Unit {0})
require_table contracts (some (text table)) = elim (get_table_contract contracts table) [
  | ok contract ↦ ok tt
  | err e ↦ err (value_error "unknown table")
]
require_table contracts other = ok tt

unfoldable pub require_policies : List CheckPolicy → Result (Unit {0})
require_policies [] = ok tt
require_policies (policy ∷ policies) = elim (get_governed_action policy.action_id) [
  | ok action ↦ require_policies policies
  | err e ↦ err (value_error "unknown action")
]

abbrev pub named_outcome : Result (Unit {0}) × Catalog → Result (Unit {0}) × Catalog
named_outcome (m, catalog) = (named_error m, catalog)

abbrev pub constructed : Result CheckSpec → Catalog → Result CheckSpec
constructed (err e) catalog = err e
constructed (ok spec) catalog = model_post_init catalog.table_contracts spec

abbrev pub cleared : Catalog
cleared = record { table_contracts = []; check_specs = [] }

-- `except Exception`: both dictionaries are given back.
abbrev pub restored : Catalog → Result (Unit {0}) × Catalog → Result (Unit {0}) × Catalog
restored before (ok _, catalog) = (ok tt, catalog)
restored before (err e, catalog) = (err e, before)

-- `CheckSpec.model_validate`: pydantic's part gives the fields, and the construction follows.
module _ (model_validate : Params → Result CheckSpec) where
  abbrev pub construct : Params → Catalog → Result CheckSpec
  construct raw catalog = constructed (model_validate raw) catalog

  abbrev pub load_check : Params → Action Catalog (Unit {0})
  load_check raw catalog =
      (do
        lift (require_table catalog.table_contracts (get "table" raw))
        spec ← lift (named_error (construct raw catalog))
        lift (
            refuse_if (has_key spec.check_id catalog.check_specs)
              (value_error "already registered"))
        lift (require_policies spec.policies)
        λ c. named_outcome (register_check spec c))
        catalog

  unfoldable pub load_checks : List Params → Action Catalog (Unit {0})
  load_checks [] = return tt
  load_checks (raw ∷ rest) = do load_check raw; load_checks rest

  abbrev pub load_document : RegistryDocument → Action Catalog (Unit {0})
  load_document document = do load_tables document.tables; load_checks document.checks

  abbrev pub read_document : Result RegistryDocument → Action Catalog (Unit {0})
  read_document (err e) catalog = (err e, catalog)
  read_document (ok document) catalog = restored catalog (load_document document catalog)

  -- `document` is what is read and validated, or the error.
  unfoldable pub load_registry : Result RegistryDocument → Action Catalog (Unit {0})
  unfolding load_tables load_checks
  load_registry document = read_document document

  unfoldable pub use_registry : Result RegistryDocument → Action Catalog (Unit {0})
  unfolding load_registry
  use_registry document catalog = load_registry document cleared
