-- ===== src/Actions/Validate.antt =====
-- action_definitions.py: what each action checks of its parameters beyond the shared rules.
use airflow_dq_agent.Prelude.{
  String, Bool, true, false, not, ◌&&◌, List, [], ◌∷◌, ◌++◌, Option, none, some, ◌==◌, ◌!=◌, get,
  member, any, option_eq,
}
use airflow_dq_agent.Errors.{Result, ok, err}
use airflow_dq_agent.Contracts.Value.{Value, null, text, Params}
use airflow_dq_agent.Contracts.Tables.{TableContract, ForeignKey}
use airflow_dq_agent.Contracts.Report.{Dimension}
use airflow_dq_agent.Contracts.Remediations.{
  Problem, not_a_primary_key, no_declared_check, other_table, not_validity, other_column,
  not_a_foreign_key,
}
use airflow_dq_agent.Quality.Registry.{CheckSpec, get_check_spec, Catalog}

abbrev problem_if : Bool → Problem → List Problem
problem_if true p = p ∷ []
problem_if false p = []

-- `params.get(key)` as a text; anything that is not a text equals no identifier.
abbrev pub text_param : Option Value → Option String
text_param (some (text s)) = some s
text_param _ = none

unfoldable pub validate_no_additional_rules : Catalog → TableContract → Params → List Problem
validate_no_additional_rules _ _ _ = []

abbrev in_primary_key : Option String → TableContract → Bool
in_primary_key none contract = false
in_primary_key (some pk) contract = member pk contract.primary_key

unfoldable pub validate_primary_key : Catalog → TableContract → Params → List Problem
validate_primary_key _ contract params =
    problem_if (not (in_primary_key (text_param (get "pk_column" params)) contract))
      not_a_primary_key

abbrev is_validity : Dimension → Bool
is_validity Dimension.validity = true
is_validity _ = false

-- `params.get("column") != spec.column`: `None` is equal to `None` only.
abbrev column_matches : Option Value → Option String → Bool
column_matches none none = true
column_matches (some null) none = true
column_matches (some (text s)) (some column) = s == column
column_matches _ _ = false

abbrev declared_problems : TableContract → Params → Result CheckSpec → List Problem
declared_problems contract params (err _) = no_declared_check ∷ []
declared_problems contract params (ok spec) =
    problem_if (spec.table != contract.table) other_table
    ++ (problem_if (not (is_validity spec.dimension)) not_validity
        ++ problem_if (not (column_matches (get "column" params) spec.column)) other_column)

abbrev check_id_problems : Catalog → TableContract → Params → Option String → List Problem
check_id_problems catalog contract params none = no_declared_check ∷ []
check_id_problems catalog contract params (some check_id) =
    declared_problems contract params (get_check_spec catalog.check_specs check_id)

unfoldable pub validate_invalids : Catalog → TableContract → Params → List Problem
unfolding validate_primary_key
validate_invalids catalog contract params =
    validate_primary_key catalog contract params
    ++ check_id_problems catalog contract params (text_param (get "check_id" params))

abbrev names_foreign_key : Option String → Option String → Option String → ForeignKey → Bool
names_foreign_key column ref_table ref_column key =
    option_eq column (some key.column)
    && option_eq ref_table (some key.ref_table)
    && option_eq ref_column (some key.ref_column)

unfoldable pub validate_orphans : Catalog → TableContract → Params → List Problem
unfolding validate_primary_key
validate_orphans catalog contract params =
    let column = text_param (get "fk_column" params) in
    let ref_table = text_param (get "ref_table" params) in
    let ref_column = text_param (get "ref_column" params) in
    validate_primary_key catalog contract params
    ++ problem_if (not (any (names_foreign_key column ref_table ref_column) contract.foreign_keys))
        not_a_foreign_key
