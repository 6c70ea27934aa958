-- ===== src/Actions/Render.antt =====
-- action_definitions.py: the statement and the controlled target query of each action. `Env` gives
-- the catalog of referenced tables and checks, and the conversions of Python's library.
use airflow_dq_agent.Prelude.{ℕ, String, List, [], ◌∷◌, Option, none, some, get}
use airflow_dq_agent.Errors.{Result, ok, err, value_error, overflow_error, ◌>>=◌}
use airflow_dq_agent.Contracts.Value.{
  ℤ, Value, int, float, bool, date, text, timestamp, list, tuple, Values, nil, cons, Params,
}
use airflow_dq_agent.Contracts.Tables.{
  DType, TableContract, column, qualified, get_table_contract, or_key_error,
}
use airflow_dq_agent.Contracts.Remediations.{RemediationAction}
use airflow_dq_agent.Quality.Registry.{get_check_spec}
use airflow_dq_agent.Environment.{Env}
use airflow_dq_agent.Actions.Derive.{or_value_error, single_pk}
use Prim.Native.String.{◌++◌}

pub record RenderedStep : Type 0 where
  pub action_id : String
  pub table : String
  pub sql : String
  pub params : Params
  pub target_sql : Option String
  pub target_params : Params

abbrev pub RenderAction : Type 0
RenderAction = Env → RemediationAction → TableContract → Params → String → Result RenderedStep

-- `str(value)`
abbrev pub str_of : Env → Value → String
str_of env (text s) = s
str_of env v = env.str v

-- `params[key]`
abbrev pub parameter : Params → String → Result Value
parameter params key = or_key_error key (get key params)

abbrev pub quote : String → String
quote identifier = "\"" ++ (identifier ++ "\"")

abbrev pub quoted_table : TableContract → String
quoted_table contract = quote contract.schema_name ++ ("." ++ quote contract.table)

unfoldable pub quarantine_queries : TableContract → String → String → String → String × String
quarantine_queries contract pk_column where_clause join_clause =
    let table = quoted_table contract in
    let pk = quote pk_column in
    (
      "INSERT INTO dq.quarantine_rows (run_id, table_name, pk_json, reason, payload)\nSELECT :run_id, :table_name, jsonb_build_object(CAST(:pk_key AS text), t."
          ++ (pk
              ++ ("), :reason, to_jsonb(t)\nFROM "
                  ++ (table ++ (" t" ++ (join_clause ++ ("\nWHERE " ++ where_clause)))))),
      "SELECT t."
          ++ (pk
              ++ (" FROM "
                  ++ (table
                      ++ (" t"
                          ++ (join_clause
                              ++ (" WHERE " ++ (where_clause ++ (" ORDER BY t." ++ pk)))))))),
    )

unfoldable pub quarantine_step :
    RemediationAction
    → TableContract
    → (where_clause run_id join_clause : String) → Result RenderedStep
quarantine_step action contract where_clause run_id join_clause = do
  pk_column ← single_pk contract
  let queries = quarantine_queries contract pk_column where_clause join_clause
  ok (record {
    action_id = action.action_id;
    table = contract.table;
    sql = queries.0;
    params =
        ("run_id", text run_id)
        ∷ ("table_name", text (qualified contract))
        ∷ ("pk_key", text pk_column)
        ∷ ("reason", text action.action_id)
        ∷ [];
    target_sql = some queries.1;
    target_params = [];
  })

unfoldable pub render_no_op : RenderAction
render_no_op env action contract params run_id = ok (record {
  action_id = action.action_id;
  table = contract.table;
  sql = "-- " ++ (action.action_id ++ (": no source mutation for " ++ quote contract.table));
  params = [];
  target_sql = none;
  target_params = [];
})

unfoldable pub render_nulls : RenderAction
render_nulls env action contract params run_id = do
  column ← parameter params "column"
  quarantine_step action contract ("t." ++ (quote (str_of env column) ++ " IS NULL")) run_id ""

unfoldable pub render_invalids : RenderAction
render_invalids env action contract params run_id = do
  check_id ← parameter params "check_id"
  spec ← get_check_spec env.catalog.check_specs (str_of env check_id)
  predicate ← or_value_error "no controlled quarantine predicate exists" spec.quarantine_predicate
  quarantine_step action contract predicate run_id ""

unfoldable pub render_orphans : RenderAction
render_orphans env action contract params run_id = do
  ref_table ← parameter params "ref_table"
  ref ← get_table_contract env.catalog.table_contracts (str_of env ref_table)
  fk_column ← parameter params "fk_column"
  ref_name ← parameter params "ref_column"
  let fk = quote (str_of env fk_column)
  let ref_column = quote (str_of env ref_name)
  let join = " LEFT JOIN " ++ (quoted_table ref ++ (" r ON r." ++ (ref_column ++ (" = t." ++ fk))))
  quarantine_step action contract ("r." ++ (ref_column ++ " IS NULL")) run_id join

abbrev pub key_items : Env → Values → List String
key_items env nil = []
key_items env (cons v vs) = ("s." ++ quote (str_of env v)) ∷ key_items env vs

-- `", ".join(…)`
abbrev pub joined : List String → String
joined [] = ""
joined (x ∷ []) = x
joined (x ∷ (y ∷ ys)) = x ++ (", " ++ joined (y ∷ ys))

abbrev pub quoted_keys : Env → Value → String
quoted_keys env (list vs) = joined (key_items env vs)
quoted_keys env (tuple vs) = joined (key_items env vs)
quoted_keys env v = joined (("s." ++ quote (str_of env v)) ∷ [])

unfoldable pub render_dedupe : RenderAction
render_dedupe env action contract params run_id = do
  business_key ← parameter params "business_key"
  pk_column ← parameter params "pk_column"
  let pk = quote (str_of env pk_column)
  quarantine_step action contract
      ("t."
        ++ (pk
            ++ (" NOT IN (SELECT MIN(s."
                ++ (pk
                    ++ (") FROM "
                        ++ (quoted_table contract
                            ++ (" s GROUP BY " ++ (quoted_keys env business_key ++ ")"))))))))
      run_id ""

-- `float(value)` of an integer
abbrev pub float_value : Option (ℤ × ℕ) → Result Value
float_value none = err overflow_error
float_value (some (z, d)) = ok (float z d)

abbrev pub mistyped {ℓ} : {A : Type ℓ} → Result A
mistyped = err (value_error "requires a fill_value of the contracted type")

abbrev pub coerced_date : Option ℕ → Result Value
coerced_date none = mistyped
coerced_date (some d) = ok (date d)

-- The value by the column's type. A `datetime` is a `date`, which the branch for dates refuses.
unfoldable pub coerce : Env → DType → Value → Result Value
coerce env DType.int64 (int z) = ok (int z)
coerce env DType.int64 _ = mistyped
coerce env DType.float64 (int z) = float_value (env.float_of_int z)
coerce env DType.float64 (float z d) = ok (float z d)
coerce env DType.float64 _ = mistyped
coerce env DType.utf8 (text s) = ok (text s)
coerce env DType.utf8 _ = mistyped
coerce env DType.bool (bool b) = ok (bool b)
coerce env DType.bool _ = mistyped
coerce env DType.date (date d) = ok (date d)
coerce env DType.date (text s) = coerced_date (env.date_fromisoformat s)
coerce env DType.date _ = mistyped
coerce env DType.datetime (timestamp t) = ok (timestamp t)
coerce env DType.datetime (text s) = do
  t ← or_value_error "requires an ISO datetime fill_value" (env.fromisoformat s)
  ok (timestamp t)
coerce env DType.datetime _ = mistyped

unfoldable pub coerce_fill_value : Env → TableContract → String → Value → Result Value
coerce_fill_value env contract name value = do
  contracted ← column contract name
  coerce env contracted.dtype value

unfoldable pub render_null_fill : RenderAction
render_null_fill env action contract params run_id = do
  named ← parameter params "column"
  let name = str_of env named
  let column_name = quote name
  given ← parameter params "fill_value"
  fill_value ← coerce_fill_value env contract name given
  pk_column ← single_pk contract
  let table = quoted_table contract
  let pk = quote pk_column
  ok (record {
    action_id = action.action_id;
    table = contract.table;
    sql =
        "UPDATE "
        ++ (table
            ++ (" SET "
                ++ (column_name ++ (" = :fill_value WHERE " ++ (column_name ++ " IS NULL")))));
    params = ("fill_value", fill_value) ∷ [];
    target_sql = some (
        "SELECT t."
        ++ (pk
            ++ (" FROM "
                ++ (table ++ (" t WHERE t." ++ (column_name ++ (" IS NULL ORDER BY t." ++ pk)))))));
    target_params = [];
  })
