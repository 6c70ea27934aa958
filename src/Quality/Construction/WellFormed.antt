-- ===== src/Quality/Construction/WellFormed.antt =====
-- quality/registry.py: the invariant of check specs that their construction establishes.
use airflow_dq_agent.Prelude.{
  String, ◌≡◌, ◌≢◌, refl, sym, subst, ◌∙◌, Bool, true, false, not, Option, none, some,
  if◌then◌else◌, not-false,
}
use airflow_dq_agent.Errors.{
  ok, value_error, refuse_if, ◌>>=◌, >>=-eq-ok, refuse_if-eq-ok, ok-injective,
}
use airflow_dq_agent.Contracts.Tables.{
  TableContract, TableContracts, ColumnContract, get_table_contract, column,
}
use airflow_dq_agent.Contracts.Report.{Dimension}
use airflow_dq_agent.Planning.Integrity.Verified.{refuse_if-ok}
use airflow_dq_agent.Quality.Registry.{CheckSpec}
use airflow_dq_agent.Quality.Construction.{
  is_some, is_filled, has_rule, names_key, require_named, require_dimension, model_post_init,
  contract_id_for-nonempty,
}
use airflow_dq_agent.Quality.Construction.Stable.{
  model_post_init-IsConstructed, model_post_init-stable,
}
use airflow_dq_agent.Quality.Predicates.{is_identifier, ident, primary_key, qualified_name}
use airflow_dq_agent.Quality.Statements.{sample_sql_for, keyed_sql, schema_sql, is_schema_drift}

ident-eq-ok : (name : String) {s : String} → ident name ≡ ok s → is_identifier name ≡ true
unfolding ident
ident-eq-ok name h = not-false _ (refuse_if-eq-ok (not (is_identifier name)) _ (ok name) h).0

-- The schema's and the table's names are identifiers.
abbrev pub IsNamed : TableContract → Type 0
IsNamed contract =
    (is_identifier contract.schema_name ≡ true) × (is_identifier contract.table ≡ true)

same_contract :
    (contracts : TableContracts) (table : String) (a b : TableContract)
    → get_table_contract contracts table ≡ ok a
    → get_table_contract contracts table ≡ ok b
    → IsNamed a
    → IsNamed b
same_contract contracts table a b h k = subst IsNamed (ok-injective (sym h ∙ k))

qualified_name-IsNamed :
    (contracts : TableContracts) (table : String) (contract : TableContract) {s : String}
    → get_table_contract contracts table ≡ ok contract
    → qualified_name contracts table ≡ ok s
    → IsNamed contract
unfolding qualified_name
qualified_name-IsNamed contracts table contract found h =
    let (other, found', h₁) = >>=-eq-ok (get_table_contract contracts table) _ h in
    let (schema_name, first, h₂) = >>=-eq-ok (ident other.schema_name) _ h₁ in
    let (name, second, h₃) = >>=-eq-ok (ident other.table) _ h₂ in
    same_contract contracts table other contract found' found
      (ident-eq-ok other.schema_name first, ident-eq-ok other.table second)

sampled :
    (contracts : TableContracts) (spec : CheckSpec) (contract : TableContract) (drift : Bool)
    {s : String}
    → get_table_contract contracts spec.table ≡ ok contract
    → (if drift then schema_sql contracts spec else (do
      pk ← primary_key contracts spec.table
      qualified ← qualified_name contracts spec.table
      keyed_sql contracts spec spec.dimension pk qualified))
      ≡ ok s
    → IsNamed contract
sampled contracts spec contract true found h =
    let (other, found', h₁) = >>=-eq-ok (get_table_contract contracts spec.table) _ h in
    let (schema_name, first, h₂) = >>=-eq-ok (ident other.schema_name) _ h₁ in
    let (name, second, h₃) = >>=-eq-ok (ident other.table) _ h₂ in
    same_contract contracts spec.table other contract found' found
      (ident-eq-ok other.schema_name first, ident-eq-ok other.table second)
sampled contracts spec contract false found h =
    let (pk, keyed, h₁) = >>=-eq-ok (primary_key contracts spec.table) _ h in
    let (qualified, named, h₂) = >>=-eq-ok (qualified_name contracts spec.table) _ h₁ in
    qualified_name-IsNamed contracts spec.table contract found named

sample_sql_for-IsNamed :
    (contracts : TableContracts) (spec : CheckSpec) (contract : TableContract) {s : String}
    → get_table_contract contracts spec.table ≡ ok contract
    → sample_sql_for contracts spec ≡ ok s
    → IsNamed contract
unfolding sample_sql_for
sample_sql_for-IsNamed contracts spec contract =
    sampled contracts spec contract (is_schema_drift spec.dimension)

-- What a check of a dimension declares: a column for completeness; a column with a rule or with
-- allowed values for validity; a business key for uniqueness; a contracted foreign key for a reference.
pub data Declares (contract : TableContract) (spec : CheckSpec) : Dimension → Type 0 where
  complete :
      (name : String) → spec.column ≡ some name → Declares contract spec Dimension.completeness
  ruled :
      (name : String)
      → spec.column ≡ some name
      → has_rule spec ≡ true
      → Declares contract spec Dimension.validity
  listed :
      (name : String) (c : ColumnContract)
      → spec.column ≡ some name
      → column contract name ≡ ok c
      → is_filled c.allowed_values ≡ true
      → Declares contract spec Dimension.validity
  keyed : is_filled spec.business_key ≡ true → Declares contract spec Dimension.uniqueness
  referring :
      names_key contract spec.column ≡ true → Declares contract spec Dimension.referential_integrity
  drifting : Declares contract spec Dimension.schema_drift

is_some-eq-true : (o : Option String) → is_some o ≡ true → (name : String) × (o ≡ some name)
is_some-eq-true none h = cc
is_some-eq-true (some name) h = (name, refl)

require_named-eq-ok :
    (message : String) (o : Option String) {name : String}
    → require_named message o ≡ ok name
    → o ≡ some name
require_named-eq-ok message none h = cc
require_named-eq-ok message (some name) h = cc

declares_rule :
    (contract : TableContract) (spec : CheckSpec) (name : String) (b : Bool)
    → has_rule spec ≡ b
    → spec.column ≡ some name
    → (if b then ok tt else (do
      contracted ← column contract name
      refuse_if (not (is_filled contracted.allowed_values)) (value_error "has no validity rule")))
      ≡ ok tt
    → Declares contract spec Dimension.validity
declares_rule contract spec name true e named h = ruled name named e
declares_rule contract spec name false e named h =
    let (c, found, filled) = >>=-eq-ok (column contract name) _ h in
    listed name c named found (not-false _ (refuse_if-ok _ _ filled))

require_dimension-Declares :
    (contract : TableContract) (spec : CheckSpec) (dimension : Dimension)
    → require_dimension contract spec dimension ≡ ok tt
    → Declares contract spec dimension
unfolding require_dimension
require_dimension-Declares contract spec Dimension.completeness h =
    let (name, named) = is_some-eq-true spec.column (not-false _ (refuse_if-ok _ _ h)) in
    complete name named
require_dimension-Declares contract spec Dimension.validity h =
    let (name, named, rule) = >>=-eq-ok (require_named _ spec.column) _ h in
    declares_rule contract spec name (has_rule spec) refl (require_named-eq-ok _ spec.column named)
      rule
require_dimension-Declares contract spec Dimension.uniqueness h =
    keyed (not-false _ (refuse_if-ok _ _ h))
require_dimension-Declares contract spec Dimension.referential_integrity h =
    referring (not-false _ (refuse_if-ok _ _ h))
require_dimension-Declares contract spec Dimension.schema_drift h = drifting

pub record IsWellFormed (contracts : TableContracts) (spec : CheckSpec) : Type 0 where
  pub contract : TableContract
  pub contracted : get_table_contract contracts spec.table ≡ ok contract
  pub named : IsNamed contract
  pub declares : Declares contract spec spec.dimension
  pub contract_id : spec.contract_id ≢ ""
  pub stable : model_post_init contracts spec ≡ ok spec

-- A check spec that is constructed is well formed: its table is contracted, with identifiers for the
-- schema and the table; it declares what its dimension requires, a column for completeness, a column
-- with a rule or allowed values for validity, a business key for uniqueness, a contracted foreign key
-- for a reference; it names a contract; and constructing it again, as when it is dumped and validated,
-- changes nothing, its compiled SQL included.
pub model_post_init-IsWellFormed :
    (contracts : TableContracts) (given spec : CheckSpec)
    → model_post_init contracts given ≡ ok spec
    → IsWellFormed contracts spec
model_post_init-IsWellFormed contracts given spec h =
    let stable = model_post_init-stable contracts given spec h in
    let c = model_post_init-IsConstructed contracts spec spec stable in
    record {
      contract = c.contract;
      contracted = c.contracted;
      named = sample_sql_for-IsNamed contracts spec c.contract c.contracted c.samples;
      declares = require_dimension-Declares c.contract spec spec.dimension c.required;
      contract_id =
          subst (λ s. s.contract_id ≢ "") c.made
            (contract_id_for-nonempty contracts spec c.id c.names);
      stable = stable;
    }
