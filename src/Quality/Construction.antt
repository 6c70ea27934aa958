-- ===== src/Quality/Construction.antt =====
-- quality/registry.py: the construction of a check spec (`CheckSpec.model_post_init`).
pub mod Stable
pub mod WellFormed
use airflow_dq_agent.Prelude.{
  String, ◌≡◌, ◌≢◌, refl, sym, ap, subst, ◌∙◌, Bool, true, false, not, ◌&&◌, ◌||◌, List, [], ◌∷◌,
  Option, none, some, ◌==◌, any, if◌then◌else◌, eq_iff, arith, Bool-cases, inl, inr,
}
use airflow_dq_agent.Errors.{
  Result, ok, err, value_error, refuse_if, ◌>>=◌, ◌>>◌, >>=-eq-ok, refuse_if-eq-ok, ok-injective,
}
use airflow_dq_agent.Contracts.Tables.{
  TableContract, TableContracts, get_table_contract, column, contract_id,
}
use airflow_dq_agent.Contracts.Report.{Dimension}
use airflow_dq_agent.Quality.Registry.{CheckSpec}
use airflow_dq_agent.Quality.Statements.{sample_sql_for, quarantine_predicate_for}
use text.Mathlib.TextLemmas.{append-eq-nil_iff, append-ne-nil_of_right_ne-nil, cons-ne-nil}
use Prim.Native.String.{◌++◌}

abbrev pub is_some : Option String → Bool
is_some none = false
is_some (some s) = true

abbrev pub is_filled : Option (List String) → Bool
is_filled none = false
is_filled (some []) = false
is_filled (some (x ∷ xs)) = true

-- `self.contains is not None or (start is not None and end is not None)`
abbrev pub has_rule : CheckSpec → Bool
has_rule spec =
    is_some spec.contains || (is_some spec.window_start_column && is_some spec.window_end_column)

abbrev pub require_named : String → Option String → Result String
require_named message none = err (value_error message)
require_named message (some name) = ok name

abbrev pub names_key : TableContract → Option String → Bool
names_key contract none = false
names_key contract (some name) = any (λ key. key.column == name) contract.foreign_keys

abbrev pub require_rule : TableContract → CheckSpec → String → Result (Unit {0})
require_rule contract spec name = if has_rule spec then ok tt else (do
  contracted ← column contract name
  refuse_if (not (is_filled contracted.allowed_values)) (value_error "has no validity rule"))

-- What each dimension requires.
unfoldable pub require_dimension : TableContract → CheckSpec → Dimension → Result (Unit {0})
require_dimension contract spec Dimension.completeness =
    refuse_if (not (is_some spec.column)) (value_error "completeness check must name a column")
require_dimension contract spec Dimension.validity = do
  name ← require_named "validity check must name a column" spec.column
  require_rule contract spec name
require_dimension contract spec Dimension.uniqueness =
    refuse_if (not (is_filled spec.business_key))
      (value_error "uniqueness check must declare a business_key")
require_dimension contract spec Dimension.referential_integrity =
    refuse_if (not (names_key contract spec.column))
      (value_error "column is not a contracted foreign key")
require_dimension contract spec Dimension.schema_drift = ok tt

true≢false : true ≡ false → ⊥
true≢false h = cc

module _ (contracts : TableContracts) where
  abbrev pub contract_id_for : CheckSpec → Result String
  contract_id_for spec =
      if spec.contract_id == ""
      then (do contract ← get_table_contract contracts spec.table; ok (contract_id contract))
      else ok spec.contract_id

  abbrev pub compiled : CheckSpec → String → String → Option String → CheckSpec
  compiled spec id sample_sql predicate = record spec {
    contract_id = id;
    sample_sql = sample_sql;
    quarantine_predicate = predicate;
  }

  unfoldable pub model_post_init : CheckSpec → Result CheckSpec
  unfolding require_dimension
  model_post_init spec = do
    id ← contract_id_for spec
    sample_sql ← sample_sql_for contracts spec
    predicate ← quarantine_predicate_for contracts spec
    contract ← get_table_contract contracts spec.table
    require_dimension contract spec spec.dimension
    ok (compiled spec id sample_sql predicate)

  -- A qualified name is not empty.
  dotted≢empty : (a b : String) → a ++ ("." ++ b) ≢ ""
  dotted≢empty a b =
      append-ne-nil_of_right_ne-nil a
        λ e. cons-ne-nil _ _ ((append-eq-nil_iff {p = "."} {q = b}).0 e).0

  named_or_own :
      (spec : CheckSpec) (b : Bool) (id : String)
      → (spec.contract_id == "") ≡ b
      → (if b
          then (do contract ← get_table_contract contracts spec.table; ok (contract_id contract))
          else ok spec.contract_id)
        ≡ ok id
      → id ≢ ""
  named_or_own spec true id e h =
      let (contract, found, made) = >>=-eq-ok (get_table_contract contracts spec.table) _ h in
      subst (λ s. s ≢ "") (ok-injective made) (dotted≢empty contract.schema_name contract.table)
  named_or_own spec false id e h =
      λ empty. true≢false (sym ((eq_iff spec.contract_id "").1 (ok-injective h ∙ empty)) ∙ e)

  -- A constructed spec names a contract.
  pub contract_id_for-nonempty :
      (spec : CheckSpec) (id : String) → contract_id_for spec ≡ ok id → id ≢ ""
  contract_id_for-nonempty spec id h = named_or_own spec (spec.contract_id == "") id refl h
