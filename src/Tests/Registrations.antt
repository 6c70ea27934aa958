-- ===== src/Tests/Registrations.antt =====
-- The theorems on the registration of checks and on sanitised proposals, at the sample catalog.
use airflow_dq_agent.Prelude.{◌≡◌, refl, [], ◌∷◌, last_segment}
use airflow_dq_agent.Errors.{ok, err, key_error}
use airflow_dq_agent.Contracts.Tables.{get_table_contract, has_column}
use airflow_dq_agent.Contracts.Remediations.{validate_common_params}
use airflow_dq_agent.Contracts.Plan.{Proposal}
use airflow_dq_agent.Quality.Registry.{CheckSpec, rule_for, get_check_spec, Catalog}
use airflow_dq_agent.Quality.Registration.{bind_policies, register_check}
use airflow_dq_agent.Quality.Registration.Rollback.{register_check-err}
use airflow_dq_agent.Actions.{validate_params, derive_params}
use airflow_dq_agent.Actions.Derive.{derive_nulls, derive_no_op, require_column, single_pk}
use airflow_dq_agent.Actions.Validate.{validate_primary_key, validate_no_additional_rules}
use airflow_dq_agent.Actions.Registered.{governed_actions, get_governed_action}
use airflow_dq_agent.CheckPolicy.{failed_checks_by_id, cited_specs, consistent, justify_action}
use airflow_dq_agent.Prelude.{map, decimal, decimal_digits, digit, All}
use airflow_dq_agent.Agent.Sanitize.{
  rebuilt_evidence, safe_action, safe_actions, safe_proposal, safe_proposal_for_xcom,
}
use airflow_dq_agent.Agent.Sanitize.Bounded.{
  without_text, IsJustifiedRequest, safe_proposal-bounded,
}
use airflow_dq_agent.Agent.Sanitize.Independent.{safe_proposal_for_xcom-independent}
use airflow_dq_agent.Tests.Samples.{catalog, amount_spec, proposal, alert, value_or}
use airflow_dq_agent.Tests.Runs.{report}

abbrev empty_catalog : Catalog
empty_catalog = record { table_contracts = catalog.table_contracts; check_specs = [] }

-- A check whose second policy names no governed action: it is added, and taken back.
abbrev unbound_spec : CheckSpec
unbound_spec = record amount_spec {
  policies = alert ∷ record { action_id = "drop_table"; parameters = [] } ∷ [];
}

refuses : (register_check unbound_spec empty_catalog).0 ≡ err (key_error "drop_table")
unfolding register_check bind_policies derive_params rule_for get_table_contract get_governed_action
    governed_actions derive_no_op validate_params validate_common_params has_column
    validate_no_additional_rules last_segment
refuses = refl

register_check-err_example : (register_check unbound_spec empty_catalog).1 ≡ empty_catalog
register_check-err_example =
    register_check-err unbound_spec empty_catalog (key_error "drop_table") refuses

abbrev crossed : Proposal
crossed = value_or proposal (safe_proposal catalog "proposal-2" report proposal)

crosses : safe_proposal catalog "proposal-2" report proposal ≡ ok crossed
unfolding safe_proposal safe_actions safe_action rebuilt_evidence decimal decimal_digits digit
    failed_checks_by_id justify_action cited_specs get_check_spec consistent derive_params rule_for
    get_table_contract get_governed_action governed_actions derive_nulls derive_no_op require_column
    single_pk validate_params validate_common_params has_column validate_primary_key
    validate_no_additional_rules last_segment
crosses = refl

safe_proposal-bounded_example :
    (crossed.candidate_actions ≡ map without_text proposal.candidate_actions)
    × All (IsJustifiedRequest catalog (failed_checks_by_id report)) proposal.candidate_actions
safe_proposal-bounded_example =
    safe_proposal-bounded catalog "proposal-2" report proposal crossed (refl, (refl, tt)) crosses

abbrev reworded : Proposal
reworded = record proposal { summary = "row 17 holds 4111-1111"; confidence = (1, 1) }

safe_proposal_for_xcom-independent_example :
    safe_proposal_for_xcom catalog "proposal-2" report proposal
    ≡ safe_proposal_for_xcom catalog "proposal-2" report reworded
safe_proposal_for_xcom-independent_example =
    safe_proposal_for_xcom-independent catalog "proposal-2" report proposal reworded refl
