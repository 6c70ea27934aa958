-- ===== src/Tests/Constructed.antt =====
-- A sample check spec is constructed, and a sample registry is used.
use airflow_dq_agent.Prelude.{◌≡◌, refl, [], ◌∷◌, last_segment}
use airflow_dq_agent.Contracts.Tables.{get_table_contract}
use airflow_dq_agent.Errors.{Result, ok}
use airflow_dq_agent.Contracts.Value.{text, Params}
use airflow_dq_agent.Load.{RegistryDocument, use_registry}
use airflow_dq_agent.Load.Loaded.{Outcome, use_registry-all_or_nothing}
use airflow_dq_agent.Quality.Construction.{model_post_init, require_dimension}
use airflow_dq_agent.Quality.Construction.WellFormed.{IsWellFormed, model_post_init-IsWellFormed}
use airflow_dq_agent.Quality.Predicates.{
  all_words, is_identifier, ident, quoted, require_column, primary_key, qualified_name,
}
use airflow_dq_agent.Quality.Registry.{CheckSpec}
use airflow_dq_agent.Quality.Statements.{sample_sql_for, quarantine_predicate_for}
use airflow_dq_agent.Tests.Samples.{catalog, invoice, amount_spec, value_or}

abbrev built : CheckSpec
built = value_or amount_spec (model_post_init catalog.table_contracts amount_spec)

builds : model_post_init catalog.table_contracts amount_spec ≡ ok built
unfolding model_post_init require_dimension sample_sql_for quarantine_predicate_for require_column
    primary_key qualified_name ident quoted is_identifier all_words get_table_contract last_segment
builds = refl

model_post_init-IsWellFormed_example : IsWellFormed catalog.table_contracts built
model_post_init-IsWellFormed_example =
    model_post_init-IsWellFormed catalog.table_contracts amount_spec built builds

abbrev document : RegistryDocument
document = record { tables = invoice ∷ []; checks = (("table", text "invoice") ∷ []) ∷ [] }

-- Pydantic's part of the validation, of the one check.
abbrev validate : Params → Result CheckSpec
validate raw = ok amount_spec

use_registry-all_or_nothing_example :
    Outcome validate (ok document) (use_registry validate (ok document) catalog)
use_registry-all_or_nothing_example = use_registry-all_or_nothing validate (ok document) catalog
