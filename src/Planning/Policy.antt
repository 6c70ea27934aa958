-- ===== src/Planning/Policy.antt =====
-- planning/compiler.py: the fingerprint of the policy that governs a plan item, over the dumps of
-- the table contracts, the check specs, and the action's metadata.
use airflow_dq_agent.Prelude.{String, List, [], ◌∷◌, map, Option, none, some}
use airflow_dq_agent.Errors.{Result, ok, ◌>>=◌}
use airflow_dq_agent.Contracts.Value.{Value, null, bool, text, text?, array, object}
use airflow_dq_agent.Contracts.Tables.{
  DType, ColumnContract, ForeignKey, TableContract, get_table_contract,
}
use airflow_dq_agent.Contracts.Report.{Dimension}
use airflow_dq_agent.Contracts.Plan.{
  DestructiveRank, ExecutablePlanItem, RemediationPlan, executable_items,
}
use airflow_dq_agent.Contracts.Remediations.{RemediationAction}
use airflow_dq_agent.Quality.Registry.{CheckPolicy, CheckSpec, get_check_spec}
use airflow_dq_agent.Actions.Registered.{get_governed_action}
use airflow_dq_agent.Environment.{Env}

abbrev pub renderer_version : String
renderer_version = "controlled-renderer-v2"

abbrev texts? : Option (List String) → Value
texts? none = null
texts? (some xs) = array (map text xs)

abbrev dtype_text : DType → String
dtype_text DType.int64 = "int64"
dtype_text DType.float64 = "float64"
dtype_text DType.utf8 = "utf8"
dtype_text DType.date = "date"
dtype_text DType.datetime = "datetime"
dtype_text DType.bool = "bool"

abbrev column_value : ColumnContract → Value
column_value c = object (
    ("name", text c.name)
    ∷ ("dtype", text (dtype_text c.dtype))
    ∷ ("nullable", bool c.nullable)
    ∷ ("unique", bool c.unique)
    ∷ ("allowed_values", texts? c.allowed_values)
    ∷ ("description", text c.description)
    ∷ [])

abbrev foreign_key_value : ForeignKey → Value
foreign_key_value key = array (text key.column ∷ text key.ref_table ∷ text key.ref_column ∷ [])

-- `TableContract.model_dump(mode="json")`
unfoldable pub contract_value : TableContract → Value
contract_value c = object (
    ("table", text c.table)
    ∷ ("schema_name", text c.schema_name)
    ∷ ("grain", text c.grain)
    ∷ ("description", text c.description)
    ∷ ("columns", array (map column_value c.columns))
    ∷ ("primary_key", array (map text c.primary_key))
    ∷ ("foreign_keys", array (map foreign_key_value c.foreign_keys))
    ∷ [])

abbrev dimension_text : Dimension → String
dimension_text Dimension.completeness = "completeness"
dimension_text Dimension.validity = "validity"
dimension_text Dimension.uniqueness = "uniqueness"
dimension_text Dimension.schema_drift = "schema_drift"
dimension_text Dimension.referential_integrity = "referential_integrity"

abbrev policy_value : CheckPolicy → Value
policy_value policy =
    object (("action_id", text policy.action_id) ∷ ("parameters", object policy.parameters) ∷ [])

-- `CheckSpec.model_dump(mode="json")`
unfoldable pub spec_value : CheckSpec → Value
spec_value spec = object (
    ("check_id", text spec.check_id)
    ∷ ("table", text spec.table)
    ∷ ("column", text? spec.column)
    ∷ ("dimension", text (dimension_text spec.dimension))
    ∷ ("description", text spec.description)
    ∷ ("contract_id", text spec.contract_id)
    ∷ ("policies", array (map policy_value spec.policies))
    ∷ ("contains", text? spec.contains)
    ∷ ("window_start_column", text? spec.window_start_column)
    ∷ ("window_end_column", text? spec.window_end_column)
    ∷ ("business_key", texts? spec.business_key)
    ∷ ("sample_sql", text spec.sample_sql)
    ∷ ("quarantine_predicate", text? spec.quarantine_predicate)
    ∷ [])

abbrev rank_text : DestructiveRank → String
rank_text DestructiveRank.none = "none"
rank_text DestructiveRank.low = "low"
rank_text DestructiveRank.medium = "medium"
rank_text DestructiveRank.high = "high"
rank_text DestructiveRank.critical = "critical"

-- `RemediationAction.model_dump(mode="json")`
unfoldable pub action_value : RemediationAction → Value
action_value action = object (
    ("action_id", text action.action_id)
    ∷ ("description", text action.description)
    ∷ ("mutates", bool action.mutates)
    ∷ ("destructive_rank", text (rank_text action.destructive_rank))
    ∷ ("reversible", bool action.reversible)
    ∷ ("required_params", array (map text action.required_params))
    ∷ ("optional_params", array (map text action.optional_params))
    ∷ ("allowed_tables", texts? action.allowed_tables)
    ∷ ("preview_sql", text action.preview_sql)
    ∷ ("notes", text action.notes)
    ∷ [])

abbrev pub each {ℓ κ} : {A : Type ℓ} {B : Type κ} → (A → Result B) → List A → Result (List B)
each f [] = ok []
each f (x ∷ xs) = do y ← f x; ys ← each f xs; ok (y ∷ ys)

unfoldable pub policy_fingerprint : Env → List CheckSpec → String → Result String
policy_fingerprint env specs action_id = do
  action ← get_governed_action action_id
  contracts ← each (λ spec. get_table_contract env.catalog.table_contracts spec.table) specs
  ok (
      env.canonical_fingerprint (
        object (
          ("contracts", array (map contract_value contracts))
          ∷ ("check_policies", array (map spec_value specs))
          ∷ ("remediation_rule", action_value action.metadata)
          ∷ ("renderer_version", text renderer_version)
          ∷ [])))

unfoldable pub item_policy_fingerprint : Env → ExecutablePlanItem → Result String
item_policy_fingerprint env item = do
  specs ← each (λ e. get_check_spec env.catalog.check_specs e.check_id) item.evidence
  policy_fingerprint env specs item.action_id

-- The fingerprint of the policy that governs an already compiled plan now.
unfoldable pub current_policy_fingerprint : Env → RemediationPlan → Result String
current_policy_fingerprint env plan = do
  fingerprints ← each (item_policy_fingerprint env) (executable_items plan.items)
  ok (env.canonical_fingerprint (array (map text fingerprints)))
