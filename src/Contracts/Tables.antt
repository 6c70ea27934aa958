-- ===== src/Contracts/Tables.antt =====
-- contracts/tables.py: table contracts and the process-wide catalog of them.
use airflow_dq_agent.Prelude.{
  String, ◌≡◌, Bool, List, Option, none, some, map, ◌==◌, Dict, get, has_key, insert, any, find,
  last_segment, if◌then◌else◌,
}
use airflow_dq_agent.Errors.{Result, ok, err, key_error, value_error}
use Prim.Native.String.{◌++◌}

pub data DType : Type 0 where
  int64 float64 utf8 date datetime bool : DType

pub record ColumnContract : Type 0 where
  pub name : String
  pub dtype : DType
  pub nullable : Bool
  pub unique : Bool
  pub allowed_values : Option (List String)
  pub description : String

pub record ForeignKey : Type 0 where
  pub column : String
  pub ref_table : String
  pub ref_column : String

pub record TableContract : Type 0 where
  pub table : String
  pub schema_name : String
  pub grain : String
  pub description : String
  pub columns : List ColumnContract
  pub primary_key : List String
  pub foreign_keys : List ForeignKey

abbrev pub contract_id : TableContract → String
contract_id contract = contract.schema_name ++ "." ++ contract.table

abbrev pub qualified : TableContract → String
qualified contract = contract.schema_name ++ "." ++ contract.table

abbrev pub column_names : TableContract → List String
column_names contract = map (λ c. c.name) contract.columns

abbrev pub or_key_error {ℓ} : {A : Type ℓ} → String → Option A → Result A
or_key_error name none = err (key_error name)
or_key_error name (some a) = ok a

unfoldable pub column : TableContract → String → Result ColumnContract
column contract name = or_key_error name (find (λ c. c.name == name) contract.columns)

unfoldable pub has_column : TableContract → String → Bool
has_column contract name = any (λ c. c.name == name) contract.columns

-- `TABLE_CONTRACTS`
abbrev pub TableContracts : Type 0
TableContracts = Dict TableContract

unfoldable pub register_contract : TableContract → TableContracts → Result TableContracts
register_contract contract contracts =
    let key = last_segment contract.table in
    if has_key key contracts
    then err (value_error "table is already registered")
    else ok (insert key contract contracts)

unfoldable pub get_table_contract : TableContracts → String → Result TableContract
get_table_contract contracts table = or_key_error table (get (last_segment table) contracts)

pub or_key_error-eq-ok {ℓ} :
    {A : Type ℓ} (name : String) (o : Option A) {a : A} → or_key_error name o ≡ ok a → o ≡ some a
or_key_error-eq-ok name none h = cc
or_key_error-eq-ok name (some a) h = cc
