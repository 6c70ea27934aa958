-- ===== src/Quality/Construction/Stable.antt =====
-- quality/registry.py: what a constructed check spec satisfies.
use airflow_dq_agent.Prelude.{
  String, ◌≡◌, ◌≢◌, refl, subst, ◌∙◌, Option, ◌==◌, ==→≡, Bool-cases, inl, inr,
}
use airflow_dq_agent.Errors.{ok, >>=-eq-ok, ok-injective}
use airflow_dq_agent.Contracts.Tables.{TableContract, TableContracts, get_table_contract}
use airflow_dq_agent.Contracts.Report.{Dimension}
use airflow_dq_agent.Quality.Registry.{CheckSpec}
use airflow_dq_agent.Quality.Construction.{
  require_dimension, contract_id_for, compiled, model_post_init, contract_id_for-nonempty,
}
use airflow_dq_agent.Quality.Predicates.{require_column, foreign_key, allowed_values}
use airflow_dq_agent.Quality.Statements.{
  sample_sql_for, validity_sample_sql, quarantine_predicate_for,
}

-- The pieces of a construction that ends well.
pub record IsConstructed (contracts : TableContracts) (given spec : CheckSpec) : Type 0 where
  pub id : String
  pub names : contract_id_for contracts given ≡ ok id
  pub sample_sql : String
  pub samples : sample_sql_for contracts given ≡ ok sample_sql
  pub predicate : Option String
  pub quarantines : quarantine_predicate_for contracts given ≡ ok predicate
  pub contract : TableContract
  pub contracted : get_table_contract contracts given.table ≡ ok contract
  pub required : require_dimension contract given given.dimension ≡ ok tt
  pub made : compiled contracts given id sample_sql predicate ≡ spec

pub model_post_init-IsConstructed :
    (contracts : TableContracts) (given spec : CheckSpec)
    → model_post_init contracts given ≡ ok spec
    → IsConstructed contracts given spec
unfolding model_post_init
model_post_init-IsConstructed contracts given spec h =
    let (id, names, h₁) = >>=-eq-ok (contract_id_for contracts given) _ h in
    let (sample_sql, samples, h₂) = >>=-eq-ok (sample_sql_for contracts given) _ h₁ in
    let (predicate, quarantines, h₃) = >>=-eq-ok (quarantine_predicate_for contracts given) _ h₂ in
    let (contract, contracted, h₄) = >>=-eq-ok (get_table_contract contracts given.table) _ h₃ in
    let (u, required, h₅) = >>=-eq-ok (require_dimension contract given given.dimension) _ h₄ in
    record {
      id = id;
      names = names;
      sample_sql = sample_sql;
      samples = samples;
      predicate = predicate;
      quarantines = quarantines;
      contract = contract;
      contracted = contracted;
      required = required;
      made = ok-injective h₅;
    }

-- The compiled fields are read by no part of a construction.
samples-again :
    (contracts : TableContracts) (given : CheckSpec) (id sql : String) (predicate : Option String)
    → sample_sql_for contracts (compiled contracts given id sql predicate)
      ≡ sample_sql_for contracts given
unfolding sample_sql_for validity_sample_sql foreign_key allowed_values require_column
samples-again contracts given id sql predicate = refl

predicate-again :
    (contracts : TableContracts) (given : CheckSpec) (id sql : String) (predicate : Option String)
    → quarantine_predicate_for contracts (compiled contracts given id sql predicate)
      ≡ quarantine_predicate_for contracts given
unfolding quarantine_predicate_for allowed_values require_column
predicate-again contracts given id sql predicate = refl

required-again :
    (contracts : TableContracts) (contract : TableContract) (given : CheckSpec) (id sql : String)
    (predicate : Option String) (dimension : Dimension)
    → require_dimension contract (compiled contracts given id sql predicate) dimension
      ≡ require_dimension contract given dimension
unfolding require_dimension
required-again contracts contract given id sql predicate Dimension.completeness = refl
required-again contracts contract given id sql predicate Dimension.validity = refl
required-again contracts contract given id sql predicate Dimension.uniqueness = refl
required-again contracts contract given id sql predicate Dimension.referential_integrity = refl
required-again contracts contract given id sql predicate Dimension.schema_drift = refl

named-again :
    (contracts : TableContracts) (given : CheckSpec) (id sql : String) (predicate : Option String)
    → id ≢ ""
    → contract_id_for contracts (compiled contracts given id sql predicate) ≡ ok id
named-again contracts given id sql predicate filled = elim (Bool-cases (id == "")) [
  | inl e ↦ absurd (filled (==→≡ id "" e))
  | inr e ↦ rw e refl
]

-- Constructing a constructed spec again, as when it is dumped and validated, changes nothing.
pub model_post_init-stable :
    (contracts : TableContracts) (given spec : CheckSpec)
    → model_post_init contracts given ≡ ok spec
    → model_post_init contracts spec ≡ ok spec
unfolding model_post_init
model_post_init-stable contracts given spec h =
    let c = model_post_init-IsConstructed contracts given spec h in
    let filled = contract_id_for-nonempty contracts given c.id c.names in
    subst (λ s. model_post_init contracts s ≡ ok s) c.made
      (rw
        (
          named-again contracts given c.id c.sample_sql c.predicate filled,
          samples-again contracts given c.id c.sample_sql c.predicate ∙ c.samples,
          predicate-again contracts given c.id c.sample_sql c.predicate ∙ c.quarantines,
          c.contracted,
          required-again contracts c.contract given c.id c.sample_sql c.predicate given.dimension
              ∙ c.required,
        )
        refl)
