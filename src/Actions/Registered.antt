-- ===== src/Actions/Registered.antt =====
-- action_definitions.py: the seven registered actions, and how one is found by its identifier.
use airflow_dq_agent.Prelude.{
  String, ◌≡◌, refl, ◌∙◌, Bool, true, false, List, [], ◌∷◌, none, some, map, Dict, get, has_key,
  All, All-get,
}
use airflow_dq_agent.Errors.{Result, ok}
use airflow_dq_agent.Contracts.Tables.{or_key_error, or_key_error-eq-ok}
use airflow_dq_agent.Contracts.Plan.{DestructiveRank}
use airflow_dq_agent.Contracts.Remediations.{RemediationAction}
use airflow_dq_agent.Actions.{GovernedAction, action_id}
use airflow_dq_agent.Actions.Derive.{
  derive_no_op, derive_nulls, derive_invalids, derive_orphans, derive_dedupe, derive_null_fill,
}
use airflow_dq_agent.Actions.Render.{
  render_no_op, render_nulls, render_invalids, render_orphans, render_dedupe, render_null_fill,
}
use airflow_dq_agent.Actions.Validate.{
  validate_no_additional_rules, validate_primary_key, validate_invalids, validate_orphans,
}

abbrev pub no_op_alert : GovernedAction
no_op_alert = record {
  metadata = record {
    action_id = "no_op_alert";
    description = "Record the failure. Do not mutate.";
    mutates = false;
    destructive_rank = DestructiveRank.none;
    reversible = true;
    required_params = "check_id" ∷ [];
    optional_params = [];
    allowed_tables = none;
    preview_sql = "-- no-op: alert only for {check_id} on {table}";
    notes = "";
  };
  derive = derive_no_op;
  validate = validate_no_additional_rules;
  render = render_no_op;
}

abbrev pub quarantine_nulls : GovernedAction
quarantine_nulls = record {
  metadata = record {
    action_id = "quarantine_nulls";
    description =
        "Copy rows where {column} IS NULL into dq.quarantine_rows; leave source intact until HITL.";
    mutates = true;
    destructive_rank = DestructiveRank.medium;
    reversible = true;
    required_params = "column" ∷ "pk_column" ∷ [];
    optional_params = [];
    allowed_tables = none;
    preview_sql =
        "INSERT INTO dq.quarantine_rows (run_id, table_name, pk_json, reason, payload)\nSELECT :run_id, :table, jsonb_build_object(:pk_column, t.{pk_column}), :reason, to_jsonb(t)\nFROM warehouse.{table} t WHERE t.{column} IS NULL";
    notes = "Apply never DELETEs from the source in v1; quarantine is copy-only.";
  };
  derive = derive_nulls;
  validate = validate_primary_key;
  render = render_nulls;
}

abbrev pub quarantine_invalids : GovernedAction
quarantine_invalids = record {
  metadata = record {
    action_id = "quarantine_invalids";
    description =
        "Copy rows failing the controlled validity predicate into dq.quarantine_rows; leave source intact until HITL.";
    mutates = true;
    destructive_rank = DestructiveRank.medium;
    reversible = true;
    required_params = "check_id" ∷ "column" ∷ "pk_column" ∷ [];
    optional_params = [];
    allowed_tables = none;
    preview_sql =
        "INSERT INTO dq.quarantine_rows (...) SELECT ... FROM warehouse.{table} WHERE <controlled validity predicate for {check_id}>";
    notes =
        "The predicate is looked up from CHECK_SPECS by check_id. It is never supplied by an agent.";
  };
  derive = derive_invalids;
  validate = validate_invalids;
  render = render_invalids;
}

abbrev pub null_fill : GovernedAction
null_fill = record {
  metadata = record {
    action_id = "null_fill";
    description = "UPDATE {table} SET {column} = :fill_value WHERE {column} IS NULL.";
    mutates = true;
    destructive_rank = DestructiveRank.low;
    reversible = false;
    required_params = "column" ∷ "fill_value" ∷ [];
    optional_params = [];
    allowed_tables = some ("fact_orders" ∷ "fact_visits" ∷ "dim_patient" ∷ []);
    preview_sql = "UPDATE warehouse.{table} SET {column} = :fill_value WHERE {column} IS NULL";
    notes = "fill_value is a bound parameter. Column must be in the table contract.";
  };
  derive = derive_null_fill;
  validate = validate_no_additional_rules;
  render = render_null_fill;
}

abbrev pub quarantine_orphans : GovernedAction
quarantine_orphans = record {
  metadata = record {
    action_id = "quarantine_orphans";
    description = "Copy rows whose FK does not resolve into dq.quarantine_rows.";
    mutates = true;
    destructive_rank = DestructiveRank.medium;
    reversible = true;
    required_params = "fk_column" ∷ "ref_table" ∷ "ref_column" ∷ "pk_column" ∷ [];
    optional_params = [];
    allowed_tables = some (
        "fact_order_items" ∷ "fact_orders" ∷ "fact_visits" ∷ "fact_adverse_events" ∷ "dim_patient"
        ∷ []);
    preview_sql =
        "INSERT INTO dq.quarantine_rows (run_id, table_name, pk_json, reason, payload)\nSELECT :run_id, :table, jsonb_build_object(:pk_column, t.{pk_column}), :reason, to_jsonb(t)\nFROM warehouse.{table} t\nLEFT JOIN warehouse.{ref_table} r ON r.{ref_column} = t.{fk_column}\nWHERE r.{ref_column} IS NULL";
    notes = "";
  };
  derive = derive_orphans;
  validate = validate_orphans;
  render = render_orphans;
}

abbrev pub dedupe_keep_min_pk : GovernedAction
dedupe_keep_min_pk = record {
  metadata = record {
    action_id = "dedupe_keep_min_pk";
    description =
        "Copy duplicate business-key rows (keep min pk) into quarantine. Source is not deleted in v1.";
    mutates = true;
    destructive_rank = DestructiveRank.high;
    reversible = true;
    required_params = "business_key" ∷ "pk_column" ∷ [];
    optional_params = [];
    allowed_tables = some ("fact_orders" ∷ "dim_patient" ∷ "dim_customer" ∷ []);
    preview_sql =
        "INSERT INTO dq.quarantine_rows (run_id, table_name, pk_json, reason, payload)\nSELECT :run_id, :table, jsonb_build_object(:pk_column, t.{pk_column}), :reason, to_jsonb(t)\nFROM warehouse.{table} t\nWHERE t.{pk_column} NOT IN (\n  SELECT MIN(s.{pk_column}) FROM warehouse.{table} s GROUP BY s.{business_key}\n)";
    notes = "HIGH rank: HITL must approve. v1 copies dupes; it does not DELETE.";
  };
  derive = derive_dedupe;
  validate = validate_primary_key;
  render = render_dedupe;
}

abbrev pub schema_drift_ticket : GovernedAction
schema_drift_ticket = record {
  metadata = record {
    action_id = "schema_drift_ticket";
    description = "Do not auto-migrate. Open a contract change; humans update TABLE_CONTRACTS.";
    mutates = false;
    destructive_rank = DestructiveRank.none;
    reversible = true;
    required_params = "check_id" ∷ [];
    optional_params = [];
    allowed_tables = none;
    preview_sql = "-- schema drift is a contract change, not a DML step";
    notes = "";
  };
  derive = derive_no_op;
  validate = validate_no_additional_rules;
  render = render_no_op;
}

abbrev pub registered : List GovernedAction
registered =
    no_op_alert ∷ quarantine_nulls ∷ quarantine_invalids ∷ null_fill ∷ quarantine_orphans
    ∷ dedupe_keep_min_pk ∷ schema_drift_ticket ∷ []

-- `_GOVERNED_ACTIONS`: the registered actions by identifier.
unfoldable pub governed_actions : Dict GovernedAction
governed_actions = map (λ action. (action_id action, action)) registered

unfoldable pub get_governed_action : String → Result GovernedAction
get_governed_action name = or_key_error name (get name governed_actions)

unfoldable pub is_governed_action : String → Bool
is_governed_action name = has_key name governed_actions

unfoldable pub list_remediation_actions : List RemediationAction
list_remediation_actions = map (λ entry. entry.1.metadata) governed_actions

registered-keyed : All (λ entry. action_id entry.1 ≡ entry.0) governed_actions
unfolding governed_actions
registered-keyed = (refl, (refl, (refl, (refl, (refl, (refl, (refl, tt)))))))

-- An action is found under its own identifier.
pub get_governed_action-action_id :
    (name : String) (action : GovernedAction)
    → get_governed_action name ≡ ok action
    → action_id action ≡ name
unfolding get_governed_action
get_governed_action-action_id name action h =
    let (j, same, keyed) =
      All-get (λ entry. action_id entry.1 ≡ entry.0) name governed_actions registered-keyed
        (or_key_error-eq-ok name (get name governed_actions) h) in
    keyed ∙ same
