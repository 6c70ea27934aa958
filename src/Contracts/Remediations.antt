-- ===== src/Contracts/Remediations.antt =====
-- contracts/remediations.py: the metadata of governed actions, and the parameter checks they share.
use airflow_dq_agent.Prelude.{
  String, Bool, true, false, not, ◌&&◌, List, [], ◌∷◌, ◌++◌, map, Option, none, some, ◌==◌, ◌!=◌,
  get, has_key, keys, member, select, sorted, text_leb, last_segment, if◌then◌else◌,
}
use airflow_dq_agent.Errors.{Result, ok, err}
use airflow_dq_agent.Contracts.Value.{
  Value, null, bool, text, list, tuple, Values, nil, cons, Params,
}
use airflow_dq_agent.Contracts.Tables.{
  TableContract, TableContracts, has_column, get_table_contract,
}
use airflow_dq_agent.Contracts.Plan.{DestructiveRank}

pub record RemediationAction : Type 0 where
  pub action_id : String
  pub description : String
  pub mutates : Bool
  pub destructive_rank : DestructiveRank
  pub reversible : Bool
  pub required_params : List String
  pub optional_params : List String
  pub allowed_tables : Option (List String)
  pub preview_sql : String
  pub notes : String

-- The error texts of parameter validation.
pub data Problem : Type 0 where
  not_allowed_on unknown_table missing_param unexpected_param : String → Problem
  empty_business_key business_key_not_text : Problem
  not_a_column not_an_identifier unknown_ref_table : String → Problem
  not_a_primary_key no_declared_check other_table not_validity other_column : Problem
  not_a_foreign_key : Problem

abbrev identifier_params : List String
identifier_params =
    "column" ∷ "pk_column" ∷ "fk_column" ∷ "ref_column" ∷ "business_key" ∷ "ref_table" ∷ []

abbrev problem_if : Bool → Problem → List Problem
problem_if true p = p ∷ []
problem_if false p = []

abbrev business_key_item : TableContract → Value → List Problem
business_key_item contract (text column) =
    problem_if (not (has_column contract column)) (not_a_column column)
business_key_item contract _ = business_key_not_text ∷ []

abbrev business_key_items : TableContract → Values → List Problem
business_key_items contract nil = []
business_key_items contract (cons v vs) =
    business_key_item contract v ++ business_key_items contract vs

abbrev business_key_problems : TableContract → Values → List Problem
business_key_problems contract nil = empty_business_key ∷ []
business_key_problems contract vs = business_key_items contract vs

abbrev ref_column_of : Result TableContract → String → List Problem
ref_column_of (ok ref_contract) value =
    problem_if (not (has_column ref_contract value)) (not_a_column value)
ref_column_of (err _) value = []

-- `str(params.get("ref_table", ""))`. The text of a number, a time or a container has a digit, a sign
-- or a bracket where the name of a table has none, and finds no contract.
abbrev ref_name : Option Value → Option String
ref_name none = some ""
ref_name (some (text ref)) = some ref
ref_name (some null) = some "None"
ref_name (some (bool true)) = some "True"
ref_name (some (bool false)) = some "False"
ref_name (some _) = none

abbrev ref_column_at : TableContracts → Option String → String → List Problem
ref_column_at contracts none value = []
ref_column_at contracts (some ref) value =
    if ref == "" then [] else ref_column_of (get_table_contract contracts ref) value

abbrev ref_column_problems : TableContracts → Option Value → String → List Problem
ref_column_problems contracts ref_table value = ref_column_at contracts (ref_name ref_table) value

abbrev text_problems : TableContracts → TableContract → Params → String → String → List Problem
text_problems contracts contract params key value =
    if key == "ref_table"
    then problem_if (not (has_key (last_segment value) contracts)) (unknown_ref_table value)
    else problem_if (not (has_column contract value) && key != "ref_column") (not_a_column value)
      ++ (if key == "ref_column"
          then ref_column_problems contracts (get "ref_table" params) value
          else [])

abbrev value_problems : TableContracts → TableContract → Params → String → Value → List Problem
value_problems contracts contract params key (text value) =
    text_problems contracts contract params key value
value_problems contracts contract params key (list vs) =
    if key == "business_key" then business_key_problems contract vs else not_an_identifier key ∷ []
value_problems contracts contract params key (tuple vs) =
    if key == "business_key" then business_key_problems contract vs else not_an_identifier key ∷ []
value_problems contracts contract params key _ = not_an_identifier key ∷ []

abbrev identifier_problems : TableContracts → TableContract → Params → Params → List Problem
identifier_problems contracts contract params [] = []
identifier_problems contracts contract params ((key, value) ∷ rest) =
    (if member key identifier_params
      then value_problems contracts contract params key value
      else [])
    ++ identifier_problems contracts contract params rest

abbrev contracted_problems :
    RemediationAction → TableContracts → Params → String → Result TableContract → List Problem
contracted_problems action contracts params table_key (err _) = unknown_table table_key ∷ []
contracted_problems action contracts params table_key (ok contract) =
    let allowed = action.required_params ++ action.optional_params in
    map missing_param (select (λ req. not (has_key req params)) action.required_params)
    ++ (map unexpected_param
          (sorted text_leb (select (λ key. not (member key allowed)) (keys params)))
        ++ identifier_problems contracts contract params params)

abbrev allowed_on : Option (List String) → String → Bool
allowed_on none table_key = true
allowed_on (some tables) table_key = member table_key tables

unfoldable pub validate_common_params :
    TableContracts → RemediationAction → String → Params → List Problem
validate_common_params contracts action table params =
    let table_key = last_segment table in
    if not (allowed_on action.allowed_tables table_key)
    then not_allowed_on table_key ∷ []
    else contracted_problems action contracts params table_key
        (get_table_contract contracts table_key)
