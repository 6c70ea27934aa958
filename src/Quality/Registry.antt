-- ===== src/Quality/Registry.antt =====
-- quality/registry.py: check specs, the policies they declare, and the process-wide catalogs.
use airflow_dq_agent.Prelude.{String, List, Option, ◌==◌, Dict, get, find}
use airflow_dq_agent.Errors.{Result}
use airflow_dq_agent.Contracts.Value.{Params}
use airflow_dq_agent.Contracts.Tables.{TableContracts, or_key_error}
use airflow_dq_agent.Contracts.Report.{Dimension}

pub record CheckPolicy : Type 0 where
  pub action_id : String
  pub parameters : Params

pub record CheckSpec : Type 0 where
  pub check_id : String
  pub table : String
  pub column : Option String
  pub dimension : Dimension
  pub description : String
  pub contract_id : String
  pub policies : List CheckPolicy
  pub contains : Option String
  pub window_start_column : Option String
  pub window_end_column : Option String
  pub business_key : Option (List String)
  pub sample_sql : String
  pub quarantine_predicate : Option String

unfoldable pub rule_for : CheckSpec → String → Option CheckPolicy
rule_for spec action_id = find (λ policy. policy.action_id == action_id) spec.policies

-- `CHECK_SPECS`
abbrev pub CheckSpecs : Type 0
CheckSpecs = Dict CheckSpec

unfoldable pub get_check_spec : CheckSpecs → String → Result CheckSpec
get_check_spec specs check_id = or_key_error check_id (get check_id specs)

-- The two process-wide dictionaries.
pub record Catalog : Type 0 where
  pub table_contracts : TableContracts
  pub check_specs : CheckSpecs
