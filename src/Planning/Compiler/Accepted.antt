-- ===== src/Planning/Compiler/Accepted.antt =====
-- planning/compiler.py and planning/integrity.py: compilation against re-derivation.
use airflow_dq_agent.Prelude.{
  ≡→!=, String, ◌≡◌, refl, sym, ap, ◌∙◌, Bool, true, false, ◌||◌, inl, inr, Bool-cases, List, [],
  ◌∷◌, map, Option, some, Dict, get, has_key, keys, member, all, ◌==◌, eq_refl, All, All-append,
}
use airflow_dq_agent.Errors.{ok, Refusing, ok-injective, >>=-eq-ok}
use airflow_dq_agent.Contracts.Value.{Datetime}
use airflow_dq_agent.Contracts.Report.{CheckResult, QualitySuiteReport}
use airflow_dq_agent.Contracts.Plan.{
  QualityEvidence, Proposal, ExecutablePlanItem, executable_items, RemediationPlan,
}
use airflow_dq_agent.Quality.Registry.{CheckSpec}
use airflow_dq_agent.CheckPolicy.{failed_checks_by_id}
use airflow_dq_agent.CheckPolicy.Justified.{AllCited}
use airflow_dq_agent.Environment.{Env}
use airflow_dq_agent.Planning.Integrity.{same_set, verify_executable_params}
use airflow_dq_agent.Planning.Compiler.{TargetSetResolver, compile_items, compile_remediation_plan}
use airflow_dq_agent.Planning.Compiler.Authorized.{
  IsAuthorizedItem, compile_remediation_plan-Authorized,
}
use airflow_dq_agent.Planning.Compiler.Covered.{remedies, member-append}
use airflow_dq_agent.Planning.Compiler.Unblocked.{compile_remediation_plan-remedies}
use airflow_dq_agent.Planning.Compiler.Distinct.{compile_remediation_plan-distinct}
use airflow_dq_agent.Planning.Compiler.Rederived.{
  ReportMatches, HasReflexiveParams, cited_by, covered_by-authorized,
}

all-All :
    (test : String → Bool) (xs : List String) → All (λ x. test x ≡ true) xs → all test xs ≡ true
all-All test [] h = refl
all-All test (x ∷ xs) h = rw (h.0, all-All test xs h.1) refl

module _ {ℓ} {V : Type ℓ} where
  get-member : (k : String) (d : Dict V) {v : V} → get k d ≡ some v → member k (keys d) ≡ true
  get-member k [] h = cc
  get-member k ((j, w) ∷ d) h = elim (Bool-cases (j == k)) [
    | inl e ↦ rw e refl
    | inr e ↦ rw e (get-member k d (rw e at h))
  ]

  all-keys :
      (test : String → Bool) (d : Dict V)
      → ((k : String) → has_key k d ≡ true → test k ≡ true)
      → all test (keys d) ≡ true
  all-keys test [] f = refl
  all-keys test ((j, v) ∷ d) f =
      rw (f j (rw (eq_refl j) refl), all-keys test d (λ k h. f k (either (j == k) (has_key k d) h)))
        refl
    where
      either : (a b : Bool) → b ≡ true → (a || b) ≡ true
      either true b h = refl
      either false b h = h

remedies-member :
    (k : String) (items : List ExecutablePlanItem) → remedies k items ≡ member k (cited_by items)
remedies-member k [] = refl
remedies-member k (item ∷ items) =
    rw (remedies-member k items)
      (sym (member-append k (map (λ e. e.check_id) item.evidence) (cited_by items)))

module _ (env : Env) (resolver : TargetSetResolver) (report : QualitySuiteReport)
    (failures : Dict CheckResult) where
  abbrev Known : String → Type 0
  Known check_id = member check_id (keys failures) ≡ true

  cited-Known :
      (evidence : List QualityEvidence) (specs : List CheckSpec)
      → AllCited env.catalog failures evidence specs
      → All Known (map (λ e. e.check_id) evidence)
  cited-Known [] [] h = tt
  cited-Known [] (spec ∷ specs) h = absurd h
  cited-Known (e ∷ evidence) [] h = absurd h
  cited-Known (e ∷ evidence) (spec ∷ specs) h =
      (get-member e.check_id failures h.0.reported, cited-Known evidence specs h.1)

  cited_by-Known :
      (items : List ExecutablePlanItem)
      → All (IsAuthorizedItem env resolver report failures) items
      → All Known (cited_by items)
  cited_by-Known [] h = tt
  cited_by-Known (item ∷ items) h =
      All-append Known (map (λ e. e.check_id) item.evidence) (cited_by items)
        (cited-Known item.evidence h.0.justification.specs h.0.justified.cited)
        (cited_by-Known items h.1)

  cited_by-same_set :
      (items : List ExecutablePlanItem)
      → All (IsAuthorizedItem env resolver report failures) items
      → ((k : String) → has_key k failures ≡ true → remedies k items ≡ true)
      → same_set (cited_by items) (keys failures) ≡ true
  cited_by-same_set items a f =
      rw
        (
          all-All (λ x. member x (keys failures)) (cited_by items) (cited_by-Known items a),
          all-keys (λ k. member k (cited_by items)) failures
              (λ k h. sym (remedies-member k items) ∙ f k h),
        )
        refl

compile_remediation_plan-quality_run_id :
    (env : Env) (resolver : TargetSetResolver) (environment : Option String) (plan_id : String)
    (compiled_at : Datetime) (report : QualitySuiteReport) (candidate : Proposal)
    (plan : RemediationPlan)
    → compile_remediation_plan env resolver environment plan_id compiled_at report candidate
      ≡ ok plan
    → report.run_id ≡ plan.quality_run_id
unfolding compile_remediation_plan
compile_remediation_plan-quality_run_id env resolver environment plan_id compiled_at report
      candidate plan h =
    let (items, e, h₁) =
      >>=-eq-ok (compile_items env resolver report candidate.candidate_actions) _ h in
    ap (λ p. p.quality_run_id) (ok-injective h₁)

-- The plan that the compiler makes of a report is accepted by the re-derivation from that report,
-- whoever asks, blocked or not, when the failed checks of the report have the contracts and tables of
-- the catalog and the parameters of the items are equal to themselves.
pub compile_remediation_plan-accepted :
    (env : Env) (resolver : TargetSetResolver) (environment : Option String) (plan_id : String)
    (compiled_at : Datetime) (report : QualitySuiteReport) (candidate : Proposal)
    (plan : RemediationPlan) (refusing : Refusing)
    → ReportMatches env.catalog report
    → All HasReflexiveParams (executable_items plan.items)
    → compile_remediation_plan env resolver environment plan_id compiled_at report candidate
      ≡ ok plan
    → verify_executable_params env refusing plan report ≡ ok tt
unfolding verify_executable_params
compile_remediation_plan-accepted env resolver environment plan_id compiled_at report candidate plan
      refusing matches reflexive h =
    let authorized =
      compile_remediation_plan-Authorized env resolver environment plan_id compiled_at report
        candidate plan h in
    let covered =
      covered_by-authorized env resolver report matches refusing [] (executable_items plan.items)
        (compile_remediation_plan-distinct env resolver environment plan_id compiled_at report
          candidate plan h)
        authorized reflexive in
    let run = ≡→!= report.run_id plan.quality_run_id (
      compile_remediation_plan-quality_run_id env resolver environment plan_id compiled_at report
        candidate plan h) in
    elim (Bool-cases plan.blocked) [
      | inl blocked ↦ rw (run, covered, blocked) refl
      | inr ready ↦
          let (whole, unblocked, remedied) =
            compile_remediation_plan-remedies env resolver environment plan_id compiled_at report
              candidate plan h ready in
          rw
            (
              run,
              covered,
              ready,
              cited_by-same_set env resolver report (failed_checks_by_id report)
                  (executable_items plan.items) authorized remedied,
            )
            refl
    ]
