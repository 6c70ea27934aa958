-- ===== src/Quality/Registration.antt =====
-- quality/registry.py: `register_check`, which either adds a check whose policies all bind, or
-- leaves the catalog as it was. The catalog comes back beside an error, as the process keeps it.
pub mod Rollback
pub mod Added
use airflow_dq_agent.Prelude.{
  String, Bool, true, false, List, [], ◌∷◌, has_key, insert, delete, if◌then◌else◌,
}
use airflow_dq_agent.Errors.{
  Error, Result, ok, err, value_error, is_key_or_value_error, ◌>>=◌, ◌>>◌,
}
use airflow_dq_agent.Quality.Registry.{CheckPolicy, CheckSpec, Catalog}
use airflow_dq_agent.Actions.{derive_params}
use airflow_dq_agent.Actions.Registered.{get_governed_action}

-- `for policy in spec.policies: get_governed_action(policy.action_id).derive_params(spec)`
unfoldable pub bind_policies : Catalog → CheckSpec → List CheckPolicy → Result (Unit {0})
bind_policies catalog spec [] = ok tt
bind_policies catalog spec (policy ∷ policies) = do
  action ← get_governed_action policy.action_id
  _ ← derive_params catalog action spec
  bind_policies catalog spec policies

abbrev pub with_check : CheckSpec → Catalog → Catalog
with_check spec catalog = record catalog {
  check_specs = insert spec.check_id spec catalog.check_specs;
}

abbrev without_check : CheckSpec → Catalog → Catalog
without_check spec catalog = record catalog {
  check_specs = delete spec.check_id catalog.check_specs;
}

abbrev keep_or_undo : CheckSpec → Catalog → Result (Unit {0}) → Result (Unit {0}) × Catalog
keep_or_undo spec added (ok _) = (ok tt, added)
keep_or_undo spec added (err e) =
    if is_key_or_value_error e then (err e, without_check spec added) else (err e, added)

unfoldable pub register_check : CheckSpec → Catalog → Result (Unit {0}) × Catalog
register_check spec catalog =
    if has_key spec.check_id catalog.check_specs
    then (err (value_error "check_id is already registered"), catalog)
    else let added = with_check spec catalog in
      keep_or_undo spec added (bind_policies added spec spec.policies)
