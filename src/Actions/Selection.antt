-- ===== src/Actions/Selection.antt =====
-- action_definitions.py: the statements of an action, by the rows they are about.
use Prim.Native.String.{◌++◌}
use text.Mathlib.TextLemmas.{append_assoc}
use airflow_dq_agent.Prelude.{sym, ap, String, ◌≡◌, ◌∙◌, ap}
use airflow_dq_agent.Contracts.Tables.{TableContract, column}
use airflow_dq_agent.Actions.Render.{quote, quoted_table}

-- The rows of a statement: a quoted table under the name `t`, what it is joined with, a condition,
-- and the table's primary key.
pub record Selection : Type 0 where
  pub schema_name : String
  pub table : String
  pub join_clause : String
  pub where_clause : String
  pub pk : String

abbrev pub identifier : String → String
identifier name = "\"" ++ (name ++ "\"")

abbrev pub relation : Selection → String
relation rows = identifier rows.schema_name ++ ("." ++ identifier rows.table)

-- The controlled query of the rows' keys, in their order.
abbrev pub select_keys : Selection → String
select_keys rows =
    "SELECT t."
    ++ (identifier rows.pk
        ++ (" FROM "
            ++ (relation rows
                ++ (" t"
                    ++ (rows.join_clause
                        ++ (" WHERE "
                            ++ (rows.where_clause ++ (" ORDER BY t." ++ identifier rows.pk))))))))

-- The copy of the rows into the quarantine, with the key and the whole row of each.
abbrev pub copy_rows : Selection → String
copy_rows rows =
    "INSERT INTO dq.quarantine_rows (run_id, table_name, pk_json, reason, payload)\nSELECT :run_id, :table_name, jsonb_build_object(CAST(:pk_key AS text), t."
    ++ (identifier rows.pk
        ++ ("), :reason, to_jsonb(t)\nFROM "
            ++ (relation rows
                ++ (" t" ++ (rows.join_clause ++ ("\nWHERE " ++ rows.where_clause))))))

-- The update of one column where it is null.
abbrev pub fill_column : Selection → String → String
fill_column rows name =
    "UPDATE "
    ++ (relation rows
        ++ (" SET "
            ++ (identifier name ++ (" = :fill_value WHERE " ++ (identifier name ++ " IS NULL")))))

-- The rows of the contracted table, by its primary key.
abbrev pub rows_of : TableContract → (pk join_clause where_clause : String) → Selection
rows_of contract pk join_clause where_clause = record {
  schema_name = contract.schema_name;
  table = contract.table;
  join_clause = join_clause;
  where_clause = where_clause;
  pk = pk;
}

abbrev pub null_condition : String → String
null_condition name = "t." ++ (identifier name ++ " IS NULL")

-- The end of the query of the rows where a column is null, with its literals together.
null_rows :
    (column order : String)
    → " t WHERE t." ++ (column ++ (" IS NULL ORDER BY t." ++ order))
      ≡ " t"
        ++ ("" ++ (" WHERE " ++ (("t." ++ (column ++ " IS NULL")) ++ (" ORDER BY t." ++ order))))
null_rows column order =
    let last : String = " ORDER BY t." ++ order in
    let rest : String = column ++ (" IS NULL" ++ last) in
    let condition : "t." ++ rest ≡ ("t." ++ (column ++ " IS NULL")) ++ last =
      ap (λ (u : String). "t." ++ u) (sym (append_assoc column " IS NULL" last))
      ∙ sym (append_assoc "t." (column ++ " IS NULL") last) in
    ap (λ (u : String). " t WHERE t." ++ (column ++ u))
      (append_assoc " IS NULL" " ORDER BY t." order)
    ∙ (append_assoc " t WHERE " "t." rest
        ∙ (append_assoc " t" " WHERE " ("t." ++ rest)
            ∙ (ap (λ (u : String). " t" ++ (" WHERE " ++ u)) condition
                ∙ append_assoc " t" "" (" WHERE " ++ (("t." ++ (column ++ " IS NULL")) ++ last)))))

pub select_keys-null :
    (contract : TableContract) (pk name : String)
    → "SELECT t."
        ++ (quote pk
            ++ (" FROM "
                ++ (quoted_table contract
                    ++ (" t WHERE t." ++ (quote name ++ (" IS NULL ORDER BY t." ++ quote pk))))))
      ≡ select_keys (rows_of contract pk "" (null_condition name))
select_keys-null contract pk name =
    ap (λ (u : String). "SELECT t." ++ (quote pk ++ (" FROM " ++ (quoted_table contract ++ u))))
      (null_rows (quote name) (quote pk))
