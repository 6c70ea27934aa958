-- ===== src/Planning/Compiler/Current.antt =====
-- planning/compiler.py: the fingerprints that a compiled plan carries.
use airflow_dq_agent.Prelude.{
  String, ◌≡◌, refl, sym, subst, ap, List, [], ◌∷◌, map, Option, Dict, All,
}
use airflow_dq_agent.Errors.{ok, Refusing, ok-injective, >>=-eq-ok}
use airflow_dq_agent.Contracts.Value.{text, Datetime}
use airflow_dq_agent.Contracts.Report.{CheckResult, QualitySuiteReport}
use airflow_dq_agent.Contracts.Plan.{
  QualityEvidence, Proposal, ExecutablePlanItem, RemediationPlan, executable_items,
}
use airflow_dq_agent.Quality.Registry.{CheckSpec, Catalog, get_check_spec}
use airflow_dq_agent.CheckPolicy.{failed_checks_by_id}
use airflow_dq_agent.CheckPolicy.Justified.{AllCited}
use airflow_dq_agent.Environment.{Env}
use airflow_dq_agent.Planning.Integrity.{plan_fingerprint, verify_plan_integrity}
use airflow_dq_agent.Planning.Integrity.Verified.{verify_plan_integrity-of}
use airflow_dq_agent.Planning.Policy.{each, item_policy_fingerprint, current_policy_fingerprint}
use airflow_dq_agent.Planning.Compiler.{TargetSetResolver, compile_items, compile_remediation_plan}
use airflow_dq_agent.Planning.Compiler.Authorized.{
  IsAuthorizedItem, compile_remediation_plan-Authorized,
}

each-AllCited :
    (catalog : Catalog) (failures : Dict CheckResult) (evidence : List QualityEvidence)
    (specs : List CheckSpec)
    → AllCited catalog failures evidence specs
    → each (λ e. get_check_spec catalog.check_specs e.check_id) evidence ≡ ok specs
each-AllCited catalog failures [] [] h = refl
each-AllCited catalog failures [] (spec ∷ specs) h = absurd h
each-AllCited catalog failures (e ∷ evidence) [] h = absurd h
each-AllCited catalog failures (e ∷ evidence) (spec ∷ specs) h =
    rw (h.0.declared, each-AllCited catalog failures evidence specs h.1)

module _ (env : Env) (resolver : TargetSetResolver) (report : QualitySuiteReport)
    (failures : Dict CheckResult) where
  item_policy_fingerprint-current :
      (item : ExecutablePlanItem)
      → IsAuthorizedItem env resolver report failures item
      → item_policy_fingerprint env item ≡ ok item.policy_fingerprint
  unfolding item_policy_fingerprint
  item_policy_fingerprint-current item a = rw (
    each-AllCited env.catalog failures item.evidence a.justification.specs a.justified.cited,
    a.fingerprinted,
  )

  each-current :
      (items : List ExecutablePlanItem)
      → All (IsAuthorizedItem env resolver report failures) items
      → each (item_policy_fingerprint env) items ≡ ok (map (λ item. item.policy_fingerprint) items)
  each-current [] h = refl
  each-current (item ∷ items) h =
      rw (item_policy_fingerprint-current item h.0, each-current items h.1)

map_text :
    (items : List ExecutablePlanItem)
    → map text (map (λ item. item.policy_fingerprint) items)
      ≡ map (λ item. text item.policy_fingerprint) items
map_text [] = refl
map_text (item ∷ items) = ap (λ vs. text item.policy_fingerprint ∷ vs) (map_text items)

-- A compiled plan's policy fingerprint is the one that is computed anew from the catalogs it was
-- compiled with.
pub compile_remediation_plan-current :
    (env : Env) (resolver : TargetSetResolver) (environment : Option String) (plan_id : String)
    (compiled_at : Datetime) (report : QualitySuiteReport) (candidate : Proposal)
    (plan : RemediationPlan)
    → compile_remediation_plan env resolver environment plan_id compiled_at report candidate
      ≡ ok plan
    → current_policy_fingerprint env plan ≡ ok plan.policy_fingerprint
unfolding compile_remediation_plan current_policy_fingerprint
compile_remediation_plan-current env resolver environment plan_id compiled_at report candidate plan
      h =
    let authorized =
      compile_remediation_plan-Authorized env resolver environment plan_id compiled_at report
        candidate plan h in
    let (items, e, h₁) =
      >>=-eq-ok (compile_items env resolver report candidate.candidate_actions) _ h in
    let same = ap (λ p. p.policy_fingerprint) (ok-injective h₁) in
    let same_items : items ≡ plan.items = ap (λ p. p.items) (ok-injective h₁) in
    rw
      (
        each-current env resolver report (failed_checks_by_id report) (executable_items plan.items)
            authorized,
        map_text (executable_items plan.items),
        sym same,
        same_items,
      )
      refl

-- A compiled plan passes the integrity check, whoever asks.
pub compile_remediation_plan-verified :
    (env : Env) (resolver : TargetSetResolver) (environment : Option String) (plan_id : String)
    (compiled_at : Datetime) (report : QualitySuiteReport) (candidate : Proposal)
    (plan : RemediationPlan) (refusing : Refusing)
    → compile_remediation_plan env resolver environment plan_id compiled_at report candidate
      ≡ ok plan
    → verify_plan_integrity env refusing plan ≡ ok tt
unfolding compile_remediation_plan plan_fingerprint
compile_remediation_plan-verified env resolver environment plan_id compiled_at report candidate plan
      refusing h =
    let (items, e, h₁) =
      >>=-eq-ok (compile_items env resolver report candidate.candidate_actions) _ h in
    subst (λ p. verify_plan_integrity env refusing p ≡ ok tt) (ok-injective h₁)
      (verify_plan_integrity-of env refusing _ refl)
