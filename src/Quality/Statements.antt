-- ===== src/Quality/Statements.antt =====
-- quality/predicates.py and quality/registry.py: the sample query and the quarantine predicate that are
-- compiled when a check spec is constructed.
use airflow_dq_agent.Prelude.{
  String, Bool, true, false, ◌&&◌, List, [], ◌∷◌, Option, none, some, if◌then◌else◌,
}
use airflow_dq_agent.Errors.{Result, ok, err, value_error, ◌>>=◌}
use airflow_dq_agent.Contracts.Tables.{TableContracts, get_table_contract}
use airflow_dq_agent.Contracts.Report.{Dimension}
use airflow_dq_agent.Planning.Policy.{each}
use airflow_dq_agent.Quality.Registry.{CheckSpec}
use airflow_dq_agent.Quality.Predicates.{
  ident, quoted, sql_str, truthy_text, require_column, primary_key, foreign_key, allowed_values,
  qualified_name, like_pattern, comma_joined, in_list,
}
use Prim.Native.String.{◌++◌}

-- `a or ""` of an optional name
abbrev name_or_empty : Option String → String
name_or_empty none = ""
name_or_empty (some s) = s

abbrev has_window : CheckSpec → Bool
has_window spec = truthy_text spec.window_start_column && truthy_text spec.window_end_column

abbrev keys_of : Option (List String) → Result (List String)
keys_of none = err (value_error "check does not declare a business_key")
keys_of (some []) = err (value_error "check does not declare a business_key")
keys_of (some (key ∷ keys)) = ok (key ∷ keys)

abbrev pub is_schema_drift : Dimension → Bool
is_schema_drift Dimension.schema_drift = true
is_schema_drift _ = false

module _ (contracts : TableContracts) where
  abbrev contains_sql : String → String → String → String → Result String
  contains_sql needle qualified pk name = do
    pattern ← like_pattern needle
    ok (
        "SELECT "
        ++ (pk
            ++ (", "
                ++ (name
                    ++ (" FROM "
                        ++ (qualified
                            ++ (" WHERE "
                                ++ (name
                                    ++ (" IS NULL OR "
                                        ++ (name
                                            ++ (" NOT LIKE "
                                                ++ (pattern
                                                    ++ (" ORDER BY "
                                                        ++ (pk ++ " LIMIT :limit"))))))))))))))

  abbrev window_sql : CheckSpec → String → String → String → Result String
  window_sql spec qualified pk name = do
    start ← ident (name_or_empty spec.window_start_column)
    end ← ident (name_or_empty spec.window_end_column)
    ok (
        "SELECT "
        ++ (pk
            ++ (", "
                ++ (name
                    ++ (", "
                        ++ (start
                            ++ (", "
                                ++ (end
                                    ++ (" FROM "
                                        ++ (qualified
                                            ++ (" WHERE "
                                                ++ (name
                                                    ++ (" IS NOT NULL AND ("
                                                        ++ (name
                                                            ++ (" < "
                                                            ++ (start
                                                            ++ (" OR "
                                                            ++ (name
                                                            ++ (" > "
                                                            ++ (end
                                                            ++ (") ORDER BY "
                                                            ++ (pk
                                                            ++ " LIMIT :limit"))))))))))))))))))))))

  abbrev listed_sql : CheckSpec → String → String → String → Result String
  listed_sql spec qualified pk name = do
    allowed ← allowed_values contracts spec
    ok (
        "SELECT "
        ++ (pk
            ++ (", "
                ++ (name
                    ++ (" FROM "
                        ++ (qualified
                            ++ (" WHERE "
                                ++ (name
                                    ++ (" NOT IN ("
                                        ++ (in_list allowed
                                            ++ (") ORDER BY " ++ (pk ++ " LIMIT :limit"))))))))))))

  abbrev by_rule {ℓ} : {A : Type ℓ} → CheckSpec → (String → A) → A → A → A
  by_rule spec on_contains on_window on_list = elim spec.contains [
    | some needle ↦ on_contains needle
    | none ↦ if has_window spec then on_window else on_list
  ]

  unfoldable pub validity_sample_sql : CheckSpec → String → String → Result String
  validity_sample_sql spec qualified pk = do
    name ← require_column spec
    by_rule spec (λ needle. contains_sql needle qualified pk name)
        (window_sql spec qualified pk name) (listed_sql spec qualified pk name)

  abbrev pub schema_sql : CheckSpec → Result String
  schema_sql spec = do
    contract ← get_table_contract contracts spec.table
    schema_name ← ident contract.schema_name
    name ← ident contract.table
    ok (
        "SELECT column_name FROM information_schema.columns WHERE table_schema = "
        ++ (sql_str schema_name
            ++ (" AND table_name = "
                ++ (sql_str name ++ " ORDER BY ordinal_position LIMIT :limit"))))

  abbrev completeness_sql : CheckSpec → String → String → Result String
  completeness_sql spec pk qualified = do
    name ← require_column spec
    ok (
        "SELECT "
        ++ (pk
            ++ (", "
                ++ (name
                    ++ (" FROM "
                        ++ (qualified
                            ++ (" WHERE "
                                ++ (name
                                    ++ (" IS NULL ORDER BY " ++ (pk ++ " LIMIT :limit"))))))))))

  abbrev uniqueness_sql : CheckSpec → String → Result String
  uniqueness_sql spec qualified = do
    keys ← keys_of spec.business_key
    checked ← each ident keys
    let columns = comma_joined checked
    ok (
        "SELECT "
        ++ (columns
            ++ (", COUNT(*) AS n FROM "
                ++ (qualified
                    ++ (" GROUP BY " ++ (columns ++ " HAVING COUNT(*) > 1 LIMIT :limit"))))))

  abbrev referential_sql : CheckSpec → String → String → Result String
  referential_sql spec pk qualified = do
    key ← foreign_key contracts spec
    fk ← ident key.column
    ref ← qualified_name contracts key.ref_table
    ref_column ← ident key.ref_column
    ok (
        "SELECT t."
        ++ (pk
            ++ (", t."
                ++ (fk
                    ++ (" FROM "
                        ++ (qualified
                            ++ (" t LEFT JOIN "
                                ++ (ref
                                    ++ (" r ON r."
                                        ++ (ref_column
                                            ++ (" = t."
                                                ++ (fk
                                                    ++ (" WHERE r."
                                                        ++ (ref_column
                                                            ++ (" IS NULL ORDER BY t."
                                                            ++ (pk
                                                            ++ " LIMIT :limit"))))))))))))))))

  abbrev pub keyed_sql : CheckSpec → Dimension → String → String → Result String
  keyed_sql spec Dimension.schema_drift pk qualified = schema_sql spec
  keyed_sql spec Dimension.completeness pk qualified = completeness_sql spec pk qualified
  keyed_sql spec Dimension.validity pk qualified = validity_sample_sql spec qualified pk
  keyed_sql spec Dimension.uniqueness pk qualified = uniqueness_sql spec qualified
  keyed_sql spec Dimension.referential_integrity pk qualified = referential_sql spec pk qualified

  unfoldable pub sample_sql_for : CheckSpec → Result String
  unfolding validity_sample_sql
  sample_sql_for spec = if is_schema_drift spec.dimension then schema_sql spec else (do
    pk ← primary_key contracts spec.table
    qualified ← qualified_name contracts spec.table
    keyed_sql spec spec.dimension pk qualified)

  abbrev validity_predicate : CheckSpec → String → Result String
  validity_predicate spec name =
      by_rule spec
        (λ needle. do
          pattern ← like_pattern needle
          ok ("t." ++ (name ++ (" IS NULL OR t." ++ (name ++ (" NOT LIKE " ++ pattern))))))
        (do
          start ← quoted (name_or_empty spec.window_start_column)
          end ← quoted (name_or_empty spec.window_end_column)
          ok (
              "t."
              ++ (name
                  ++ (" IS NOT NULL AND (t."
                      ++ (name
                          ++ (" < t."
                              ++ (start ++ (" OR t." ++ (name ++ (" > t." ++ (end ++ ")")))))))))))
        (do
          allowed ← allowed_values contracts spec
          ok ("t." ++ (name ++ (" NOT IN (" ++ (in_list allowed ++ ")")))))

  abbrev predicate_by : CheckSpec → Dimension → Result (Option String)
  predicate_by spec Dimension.completeness = do
    checked ← require_column spec
    name ← quoted checked
    ok (some ("t." ++ (name ++ " IS NULL")))
  predicate_by spec Dimension.validity = do
    checked ← require_column spec
    name ← quoted checked
    predicate ← validity_predicate spec name
    ok (some predicate)
  predicate_by spec _ = ok none

  unfoldable pub quarantine_predicate_for : CheckSpec → Result (Option String)
  quarantine_predicate_for spec = predicate_by spec spec.dimension
