-- ===== src/Planning/Compiler/Rederived.antt =====
-- planning/integrity.py: the re-derivation of a compiled plan's items, one by one.
use airflow_dq_agent.Prelude.{
  ≡→!=, String, ◌≡◌, refl, subst, ◌∙◌, true, false, not, List, [], ◌∷◌, ◌++◌, map, Option, none,
  some, Dict, get, ◌!=◌, All,
}
use airflow_dq_agent.Errors.{ok, Refusing}
use airflow_dq_agent.Contracts.Value.{params_eq}
use airflow_dq_agent.Contracts.Report.{CheckResult, QualitySuiteReport}
use airflow_dq_agent.Contracts.Plan.{QualityEvidence, ExecutablePlanItem}
use airflow_dq_agent.Quality.Registry.{CheckSpec, get_check_spec, Catalog}
use airflow_dq_agent.CheckPolicy.{failed_checks_by_id}
use airflow_dq_agent.CheckPolicy.Justified.{IsCited, AllCited}
use airflow_dq_agent.CheckPolicy.Complete.{justify_action_iff}
use airflow_dq_agent.Environment.{Env}
use airflow_dq_agent.Planning.Integrity.{
  Identity, identity_of, matches_table, all_match, rederive, covered_by,
}
use airflow_dq_agent.Planning.Compiler.{TargetSetResolver}
use airflow_dq_agent.Planning.Compiler.Authorized.{IsAuthorizedItem}
use airflow_dq_agent.Planning.Compiler.Distinct.{Unseen}

-- The report was made of the checks of the catalog: a failed check has the contract and the table
-- that the catalog declares for it.
abbrev pub ReportMatches : Catalog → QualitySuiteReport → Type 0
ReportMatches catalog report =
    (k : String) (failed : CheckResult) (spec : CheckSpec)
    → get k (failed_checks_by_id report) ≡ some failed
    → get_check_spec catalog.check_specs k ≡ ok spec
    → (spec.contract_id ≡ failed.contract_id) × (failed.table ≡ spec.table)

-- The item's parameters are equal to themselves, as all values but NaN are.
abbrev pub HasReflexiveParams : ExecutablePlanItem → Type 0
HasReflexiveParams item = params_eq item.params item.params ≡ true

abbrev pub cited_by : List ExecutablePlanItem → List String
cited_by [] = []
cited_by (item ∷ items) = map (λ e. e.check_id) item.evidence ++ cited_by items

module _ (env : Env) (resolver : TargetSetResolver) (report : QualitySuiteReport)
    (matches : ReportMatches env.catalog report) where
  abbrev failures : Dict CheckResult
  failures = failed_checks_by_id report

  reported-matches :
      (table : String) (e : QualityEvidence) (spec : CheckSpec) (o : Option CheckResult)
      (failed : CheckResult)
      → o ≡ some failed
      → failed.table ≡ table
      → elim o [ none ↦ false | some f ↦ not (f.table != table) ] ≡ true
  reported-matches table e spec none failed h t = cc
  reported-matches table e spec (some f) failed h t =
      let same : f.table ≡ table = cc in rw (≡→!= f.table table same) refl

  cited-matches :
      (table : String) (e : QualityEvidence) (spec : CheckSpec)
      → IsCited env.catalog failures e spec
      → spec.table ≡ table
      → matches_table failures table e spec ≡ true
  cited-matches table e spec c t =
      let (contract, place) = matches e.check_id c.failed spec c.reported c.declared in
      rw
        (
          ≡→!= spec.table table t,
          ≡→!= spec.contract_id e.contract_id (contract ∙ c.same_contract),
          reported-matches table e spec (get e.check_id failures) c.failed c.reported (place ∙ t),
        )
        refl

  all_match-cited :
      (table : String) (evidence : List QualityEvidence) (specs : List CheckSpec)
      → AllCited env.catalog failures evidence specs
      → All (λ spec. spec.table ≡ table) specs
      → all_match failures table evidence specs ≡ true
  all_match-cited table [] [] c t = refl
  all_match-cited table [] (spec ∷ specs) c t = absurd c
  all_match-cited table (e ∷ evidence) [] c t = absurd c
  all_match-cited table (e ∷ evidence) (spec ∷ specs) c t =
      rw (cited-matches table e spec c.0 t.0, all_match-cited table evidence specs c.1 t.1) refl

  rederive-authorized :
      (item : ExecutablePlanItem) (a : IsAuthorizedItem env resolver report failures item)
      → rederive env failures item ≡ ok a.justification.params
  unfolding rederive
  rederive-authorized item a =
      rw
        (
          (justify_action_iff env.catalog item.action_id item.evidence failures a.justification).1
              a.justified,
          all_match-cited item.table item.evidence a.justification.specs a.justified.cited
              a.one_table,
        )
        refl

  pub covered_by-authorized :
      (refusing : Refusing) (seen : List Identity) (items : List ExecutablePlanItem)
      → Unseen seen items
      → All (IsAuthorizedItem env resolver report failures) items
      → All HasReflexiveParams items
      → covered_by env refusing failures seen items ≡ ok (cited_by items)
  unfolding covered_by
  covered_by-authorized refusing seen [] u a r = refl
  covered_by-authorized refusing seen (item ∷ items) u a r =
      let same = subst (λ p. params_eq p item.params ≡ true) a.0.frozen r.0 in
      rw
        (
          u.0,
          rederive-authorized item a.0,
          same,
          covered_by-authorized refusing (identity_of item.action_id item.evidence ∷ seen) items u.1
              a.1 r.1,
        )
        refl
