-- ===== src/Load/Loaded.antt =====
-- load.py: the catalogs behind the loading of a registry.
use mathlib.Core.List.{append-nil, append_assoc}
use airflow_dq_agent.Prelude.{
  String, Dict, ◌++◌, map, insert, Bool-cases, inl, inr, last_segment, arith, ◌≡◌, refl, sym, ap,
  subst, ◌∙◌, Bool, true, false, List, [], ◌∷◌, has_key, get, if◌then◌else◌,
}
use airflow_dq_agent.Errors.{Error, Result, ok, err, value_error, is_key_or_value_error, refuse_if}
use airflow_dq_agent.Contracts.Tables.{TableContract, TableContracts, register_contract}
use airflow_dq_agent.Contracts.Value.{Params}
use airflow_dq_agent.Load.{
  RegistryDocument, named_error, load_table, load_tables, require_table, require_policies,
  named_outcome, constructed, construct, load_check, load_checks, load_document, restored,
  load_registry, cleared, use_registry,
}
use airflow_dq_agent.Quality.Construction.{model_post_init}
use airflow_dq_agent.Quality.Construction.WellFormed.{IsWellFormed, model_post_init-IsWellFormed}
use airflow_dq_agent.Quality.Registration.{register_check, with_check}
use airflow_dq_agent.Quality.Registration.Added.{register_check-IsRegistered}
use airflow_dq_agent.Quality.Registry.{CheckSpec, Catalog}
use airflow_dq_agent.Stateful.{lift, >>=-eq-ok, lift-eq-ok}

-- A check of the catalog that comes from one of the document.
pub record IsCheckOf (model_validate : Params → Result CheckSpec) (contracts : TableContracts)
    (raw : Params) (id : String) (spec : CheckSpec) : Type 0 where
  pub given : CheckSpec
  pub validated : model_validate raw ≡ ok given
  pub built : model_post_init contracts given ≡ ok spec
  pub keyed : id ≡ spec.check_id
  pub formed : IsWellFormed contracts spec

-- One check for each of the document, in order, and no other.
abbrev pub AreChecksOf :
    (Params → Result CheckSpec) → TableContracts → List Params → Dict CheckSpec → Type 0
AreChecksOf model_validate contracts [] [] = Unit
AreChecksOf model_validate contracts [] (entry ∷ entries) = ⊥
AreChecksOf model_validate contracts (raw ∷ raws) [] = ⊥
AreChecksOf model_validate contracts (raw ∷ raws) ((id, spec) ∷ entries) =
    IsCheckOf model_validate contracts raw id spec
    × AreChecksOf model_validate contracts raws entries

-- The tables of a document under their own names, in order.
abbrev pub tables_of : List TableContract → Dict TableContract
tables_of tables = map (λ t. (last_segment t.table, t)) tables

-- The catalogs hold the document, the whole of it and nothing else.
pub record IsLoaded (model_validate : Params → Result CheckSpec) (document : RegistryDocument)
    (catalog : Catalog) : Type 0 where
  pub tables : catalog.table_contracts ≡ tables_of document.tables
  pub checks :
      AreChecksOf model_validate catalog.table_contracts document.checks catalog.check_specs

insert-new {ℓ} :
    {V : Type ℓ} (k : String) (v : V) (d : Dict V)
    → has_key k d ≡ false
    → insert k v d ≡ d ++ ((k, v) ∷ [])
insert-new k v [] h = refl
insert-new k v ((j, w) ∷ d) h = ground (arith, insert-new k v d)

raised_either :
    {A : Type 0} (b : Bool) (e f : Error) {a : A} → (if b then err e else err f) ≡ ok a → ⊥
raised_either true e f h = cc
raised_either false e f h = cc

named_error-eq-ok : {A : Type 0} (m : Result A) {a : A} → named_error m ≡ ok a → m ≡ ok a
named_error-eq-ok (ok a) h = h
named_error-eq-ok (err e) h =
    absurd (raised_either (is_key_or_value_error e) (value_error "invalid entry") e h)

-- What a table that is loaded leaves of the catalog, and what it adds.
IsWithTable : TableContract → Catalog → Catalog → Type 0
IsWithTable contract catalog after =
    (after.check_specs ≡ catalog.check_specs)
    × (after.table_contracts ≡ catalog.table_contracts ++ tables_of (contract ∷ []))

registered-IsWithTable :
    (contract : TableContract) (catalog after : Catalog) {u : Unit {0}}
    → load_table contract catalog ≡ (ok u, after)
    → IsWithTable contract catalog after
unfolding register_contract IsWithTable
registered-IsWithTable contract catalog after h =
    let key = last_segment contract.table in
    elim (Bool-cases (has_key key catalog.table_contracts)) [
      | inl old ↦ let clash = rw old at h in cc
      | inr new ↦
          let done = rw new at h in
          let same = ap (λ r. r.1) done in
          (
            ap (λ c. c.check_specs) (sym same),
            ap (λ c. c.table_contracts) (sym same)
                ∙ insert-new key contract catalog.table_contracts new,
          )
    ]

load_tables-all :
    (contracts : List TableContract) (catalog after : Catalog) {u : Unit {0}}
    → load_tables contracts catalog ≡ (ok u, after)
    → (after.check_specs ≡ catalog.check_specs)
      × (after.table_contracts ≡ catalog.table_contracts ++ tables_of contracts)
unfolding load_tables IsWithTable
load_tables-all [] catalog after h =
    let same = ap (λ r. r.1) h in
    (
      ap (λ c. c.check_specs) (sym same),
      ap (λ c. c.table_contracts) (sym same) ∙ sym (append-nil catalog.table_contracts),
    )
load_tables-all (contract ∷ contracts) catalog after h =
    let (u, middle, h₁, k₁) =
      >>=-eq-ok (load_table contract) (λ done. load_tables contracts) catalog h in
    let one = registered-IsWithTable contract catalog middle h₁ in
    let more = load_tables-all contracts middle after k₁ in
    (
      more.0 ∙ one.0,
      more.1
          ∙ (ap (λ d. d ++ tables_of contracts) one.1
              ∙ append_assoc catalog.table_contracts (tables_of (contract ∷ []))
                  (tables_of contracts)),
    )

named_outcome-eq-ok :
    (r : Result (Unit {0}) × Catalog) {u : Unit {0}} {after : Catalog}
    → named_outcome r ≡ (ok u, after)
    → (r.0 ≡ ok u) × (r.1 ≡ after)
named_outcome-eq-ok (m, catalog) h = (named_error-eq-ok m (ap (λ r. r.0) h), ap (λ r. r.1) h)

constructed-eq-ok :
    (m : Result CheckSpec) (catalog : Catalog) {spec : CheckSpec}
    → constructed m catalog ≡ ok spec
    → (given : CheckSpec) × (m ≡ ok given)
      × (model_post_init catalog.table_contracts given ≡ ok spec)
constructed-eq-ok (err e) catalog h = cc
constructed-eq-ok (ok given) catalog h = (given, refl, h)

module _ (model_validate : Params → Result CheckSpec) where
  -- What the catalogs are, by how the loading ended.
  pub Outcome : Result RegistryDocument → Result (Unit {0}) × Catalog → Type 0
  Outcome (ok document) (ok u, catalog) = IsLoaded model_validate document catalog
  Outcome (err e) (ok u, catalog) = ⊥
  Outcome document (err e, catalog) = catalog ≡ cleared

  restored-Outcome :
      (document : RegistryDocument) (before : Catalog) (r : Result (Unit {0}) × Catalog)
      → before ≡ cleared
      → ((u : Unit {0}) (after : Catalog)
          → r ≡ (ok u, after)
          → IsLoaded model_validate document after)
      → Outcome (ok document) (restored before r)
  unfolding Outcome
  restored-Outcome document before (ok u, catalog) same h = h u catalog refl
  restored-Outcome document before (err e, catalog) same h = same

  -- What a check that is loaded adds to the catalog.
  record IsWithCheck (raw : Params) (catalog after : Catalog) : Type 0 where
    spec : CheckSpec
    own : IsCheckOf model_validate catalog.table_contracts raw spec.check_id spec
    specs : after.check_specs ≡ catalog.check_specs ++ ((spec.check_id, spec) ∷ [])
    tables : after.table_contracts ≡ catalog.table_contracts

  load_check-IsWithCheck :
      (raw : Params) (catalog after : Catalog) {u : Unit {0}}
      → load_check model_validate raw catalog ≡ (ok u, after)
      → IsWithCheck raw catalog after
  load_check-IsWithCheck raw catalog after h =
      let (u₁, s₁, h₁, k₁) =
        >>=-eq-ok (lift (require_table catalog.table_contracts (get "table" raw))) _ catalog h in
      let same₁ = (lift-eq-ok _ catalog h₁).1 in
      let (spec, s₂, h₂, k₂) =
        >>=-eq-ok (lift (named_error (construct model_validate raw catalog))) _ s₁ k₁ in
      let (built, same₂) = lift-eq-ok _ s₁ h₂ in
      let (u₃, s₃, h₃, k₃) =
        >>=-eq-ok
          (lift (
            refuse_if (has_key spec.check_id catalog.check_specs)
              (value_error "already registered")))
          _ s₂ k₂ in
      let same₃ = (lift-eq-ok _ s₂ h₃).1 in
      let (u₄, s₄, h₄, k₄) = >>=-eq-ok (lift (require_policies spec.policies)) _ s₃ k₃ in
      let same₄ = (lift-eq-ok _ s₃ h₄).1 in
      let same : catalog ≡ s₄ = same₁ ∙ (same₂ ∙ (same₃ ∙ same₄)) in
      let (done, end) = named_outcome-eq-ok (register_check spec s₄) k₄ in
      let r = register_check-IsRegistered spec s₄ done in
      let grown : with_check spec s₄ ≡ after = sym r.added ∙ end in
      let (given, validated, post) =
        constructed-eq-ok (model_validate raw) catalog (named_error-eq-ok _ built) in
      record {
        spec = spec;
        own = record {
          given = given;
          validated = validated;
          built = post;
          keyed = refl;
          formed = model_post_init-IsWellFormed catalog.table_contracts given spec post;
        };
        specs =
            ap (λ c. c.check_specs) (sym grown)
            ∙ (insert-new spec.check_id spec s₄.check_specs r.fresh
                ∙ ap (λ c. c.check_specs ++ ((spec.check_id, spec) ∷ [])) (sym same));
        tables = ap (λ c. c.table_contracts) (sym grown) ∙ ap (λ c. c.table_contracts) (sym same);
      }

  -- What the checks that are loaded add to the catalog.
  record IsWithChecks (raws : List Params) (catalog after : Catalog) : Type 0 where
    added : Dict CheckSpec
    own : AreChecksOf model_validate catalog.table_contracts raws added
    specs : after.check_specs ≡ catalog.check_specs ++ added
    tables : after.table_contracts ≡ catalog.table_contracts

  load_checks-IsWithChecks :
      (checks : List Params) (catalog after : Catalog) {u : Unit {0}}
      → load_checks model_validate checks catalog ≡ (ok u, after)
      → IsWithChecks checks catalog after
  unfolding load_checks
  load_checks-IsWithChecks [] catalog after h =
      let same = ap (λ r. r.1) h in
      record {
        added = [];
        own = tt;
        specs = ap (λ c. c.check_specs) (sym same) ∙ sym (append-nil catalog.check_specs);
        tables = ap (λ c. c.table_contracts) (sym same);
      }
  load_checks-IsWithChecks (raw ∷ rest) catalog after h =
      let (u, middle, h₁, k₁) =
        >>=-eq-ok (load_check model_validate raw) (λ done. load_checks model_validate rest) catalog
          h in
      let one = load_check-IsWithCheck raw catalog middle h₁ in
      let more = load_checks-IsWithChecks rest middle after k₁ in
      record {
        added = (one.spec.check_id, one.spec) ∷ more.added;
        own = (
          one.own,
          subst (λ contracts. AreChecksOf model_validate contracts rest more.added) one.tables
              more.own,
        );
        specs =
            more.specs
            ∙ (ap (λ d. d ++ more.added) one.specs
                ∙ append_assoc catalog.check_specs ((one.spec.check_id, one.spec) ∷ []) more.added);
        tables = more.tables ∙ one.tables;
      }

  load_document-IsLoaded :
      (document : RegistryDocument) (after : Catalog) {u : Unit {0}}
      → load_document model_validate document cleared ≡ (ok u, after)
      → IsLoaded model_validate document after
  load_document-IsLoaded document after h =
      let (u, middle, h₁, k₁) =
        >>=-eq-ok (load_tables document.tables) (λ done. load_checks model_validate document.checks)
          cleared h in
      let tables = load_tables-all document.tables cleared middle h₁ in
      let checks = load_checks-IsWithChecks document.checks middle after k₁ in
      let specs : after.check_specs ≡ checks.added =
        checks.specs ∙ ap (λ d. d ++ checks.added) tables.0 in
      record {
        tables = checks.tables ∙ tables.1;
        checks =
            subst (λ d. AreChecksOf model_validate after.table_contracts document.checks d)
              (sym specs)
              (subst (λ c. AreChecksOf model_validate c document.checks checks.added)
                (sym checks.tables) checks.own);
      }

  -- However the replacement of the registry ends, no half of a document is in force. If it returns,
  -- the document could be read, the table contracts are those of the document under their names, and
  -- the checks in the catalog are those of the document, all of them in order and no other, each
  -- constructed with these contracts, under its own identifier and well formed; if it raises, be it at
  -- the file, at a table, at a check, at a policy or at a binding, both catalogs are empty.
  pub use_registry-all_or_nothing :
      (document : Result RegistryDocument) (catalog : Catalog)
      → Outcome document (use_registry model_validate document catalog)
  unfolding use_registry load_registry Outcome
  use_registry-all_or_nothing (err e) catalog = refl
  use_registry-all_or_nothing (ok document) catalog =
      restored-Outcome document cleared (load_document model_validate document cleared) refl
        λ u after h. load_document-IsLoaded document after h
