-- ===== src/Quality/Predicates.antt =====
-- quality/predicates.py: the SQL of a check, over validated identifiers. What runs a check on frames
-- is polars.
use airflow_dq_agent.Prelude.{
  ℕ, String, Bool, true, false, not, ◌&&◌, ◌||◌, List, [], ◌∷◌, map, Option, none, some, ◌==◌, find,
  nat_eq, leb, if◌then◌else◌,
}
use airflow_dq_agent.Errors.{Result, ok, err, value_error, refuse_if, ◌>>=◌, ◌>>◌}
use airflow_dq_agent.Contracts.Tables.{TableContracts, ForeignKey, get_table_contract, column}
use airflow_dq_agent.Actions.Derive.{or_value_error}
use airflow_dq_agent.Quality.Registry.{CheckSpec}
use Prim.Native.Char.{code}
use Prim.Native.String.{◌++◌}

abbrev is_letter : ℕ → Bool
is_letter c = (leb b'A' c && leb c b'Z') || ((leb b'a' c && leb c b'z') || nat_eq c b'_')

abbrev is_word : ℕ → Bool
is_word c = is_letter c || (leb b'0' c && leb c b'9')

unfoldable pub all_words : String → Bool
all_words String.[] = true
all_words (String.◌∷◌ c s) = is_word (code c) && all_words s

-- `_IDENT.fullmatch(name)`
unfoldable pub is_identifier : String → Bool
unfolding all_words
is_identifier String.[] = false
is_identifier (String.◌∷◌ c s) = is_letter (code c) && all_words s

unfoldable pub ident : String → Result String
ident name = do
  refuse_if (not (is_identifier name)) (value_error "Refusing unvalidated identifier")
  ok name

unfoldable pub quoted : String → Result String
quoted name = do checked ← ident name; ok ("\"" ++ (checked ++ "\""))

-- `value.replace("'", "''")`
unfoldable pub double_quotes : String → String
double_quotes String.[] = String.[]
double_quotes (String.◌∷◌ c s) =
    let rest = double_quotes s in
    if nat_eq (code c) b'\'' then String.◌∷◌ c (String.◌∷◌ c rest) else String.◌∷◌ c rest

unfoldable pub sql_str : String → String
unfolding double_quotes
sql_str value = "'" ++ (double_quotes value ++ "'")

-- `name` for a name that is a text and not empty
abbrev pub truthy_text : Option String → Bool
truthy_text none = false
truthy_text (some s) = not (s == "")

unfoldable pub require_column : CheckSpec → Result String
require_column spec = do
  name ← or_value_error "check does not name a column" spec.column
  ident name

abbrev only_column : List String → Result String
only_column (key ∷ []) = ident key
only_column _ = err (value_error "table does not have a single-column primary key")

module _ (contracts : TableContracts) where
  unfoldable pub primary_key : String → Result String
  primary_key table = do
    contract ← get_table_contract contracts table
    only_column contract.primary_key

  unfoldable pub foreign_key : CheckSpec → Result ForeignKey
  foreign_key spec = do
    name ← require_column spec
    contract ← get_table_contract contracts spec.table
    or_value_error "check column is not a contracted foreign key"
        (find (λ key. key.column == name) contract.foreign_keys)

  abbrev declared : Option (List String) → Result (List String)
  declared none = err (value_error "no allowed_values on the table contract")
  declared (some []) = err (value_error "no allowed_values on the table contract")
  declared (some (value ∷ values)) = ok (value ∷ values)

  unfoldable pub allowed_values : CheckSpec → Result (List String)
  allowed_values spec = do
    name ← require_column spec
    contract ← get_table_contract contracts spec.table
    contracted ← column contract name
    declared contracted.allowed_values

  unfoldable pub qualified_name : String → Result String
  qualified_name table = do
    contract ← get_table_contract contracts table
    schema_name ← ident contract.schema_name
    name ← ident contract.table
    ok (schema_name ++ ("." ++ name))

-- `"%_\\'"`
abbrev is_special : ℕ → Bool
is_special c = nat_eq c b'%' || (nat_eq c b'_' || (nat_eq c b'\\' || nat_eq c b'\''))

unfoldable pub any_special : String → Bool
any_special String.[] = false
any_special (String.◌∷◌ c s) = is_special (code c) || any_special s

unfoldable pub like_pattern : String → Result String
like_pattern needle = do
  refuse_if (any_special needle) (value_error "contains cannot be compiled to LIKE")
  ok ("'%" ++ (needle ++ "%'"))

-- `", ".join(…)`
abbrev pub comma_joined : List String → String
comma_joined [] = ""
comma_joined (x ∷ []) = x
comma_joined (x ∷ (y ∷ ys)) = x ++ (", " ++ comma_joined (y ∷ ys))

abbrev pub in_list : List String → String
in_list values = comma_joined (map sql_str values)
