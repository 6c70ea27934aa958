-- ===== src/Actions/Derive.antt =====
-- action_definitions.py: how each action's parameters follow from a check and its table's contract.
use airflow_dq_agent.Prelude.{String, List, [], ◌∷◌, Option, none, some, insert, find, ◌==◌}
use airflow_dq_agent.Errors.{Result, ok, err, value_error, ◌>>=◌}
use airflow_dq_agent.Contracts.Value.{text, Params}
use airflow_dq_agent.Contracts.Tables.{TableContract}
use airflow_dq_agent.Quality.Registry.{CheckSpec}

abbrev pub or_value_error {ℓ} : {A : Type ℓ} → String → Option A → Result A
or_value_error message none = err (value_error message)
or_value_error message (some a) = ok a

unfoldable pub require_column : CheckSpec → String → Result String
require_column spec message = or_value_error message spec.column

abbrev pub only_key : List String → Result String
only_key (key ∷ []) = ok key
only_key _ = err (value_error "controlled renderer does not support a composite primary key yet")

unfoldable pub single_pk : TableContract → Result String
single_pk contract = only_key contract.primary_key

unfoldable pub derive_no_op : CheckSpec → TableContract → Params → Result Params
derive_no_op spec _ params = ok (insert "check_id" (text spec.check_id) params)

unfoldable pub derive_nulls : CheckSpec → TableContract → Params → Result Params
derive_nulls spec contract params = do
  column ← require_column spec "completeness policy does not name a target column"
  pk ← single_pk contract
  ok (insert "pk_column" (text pk) (insert "column" (text column) params))

unfoldable pub derive_invalids : CheckSpec → TableContract → Params → Result Params
derive_invalids spec contract params = do
  column ← require_column spec "validity policy does not name a target column"
  pk ← single_pk contract
  ok (
      insert "pk_column" (text pk)
        (insert "column" (text column) (insert "check_id" (text spec.check_id) params)))

unfoldable pub derive_orphans : CheckSpec → TableContract → Params → Result Params
derive_orphans spec contract params = do
  column ← require_column spec "referential policy does not name a foreign key"
  key ←
      or_value_error "check column is not a contracted foreign key"
        (find (λ fk. fk.column == column) contract.foreign_keys)
  pk ← single_pk contract
  ok (
      insert "pk_column" (text pk) (
        insert "ref_column" (text key.ref_column)
          (insert "ref_table" (text key.ref_table) (insert "fk_column" (text key.column) params))))

unfoldable pub derive_dedupe : CheckSpec → TableContract → Params → Result Params
derive_dedupe _ contract params = do
  pk ← single_pk contract
  ok (insert "pk_column" (text pk) params)

unfoldable pub derive_null_fill : CheckSpec → TableContract → Params → Result Params
derive_null_fill spec _ params = do
  column ← require_column spec "null-fill policy does not name a target column"
  ok (insert "column" (text column) params)
