-- ===== src/Planning/Compiler/Authorized.antt =====
-- planning/compiler.py: what an executable item of a compiled plan rests on.
use airflow_dq_agent.Prelude.{
  ℕ, suc, String, ◌≡◌, refl, subst, ap, Bool, true, false, ◌⊎◌, inl, inr, List, [], ◌∷◌, ◌++◌,
  Option, Dict, ◌!=◌, !=→≡, any, All, arith, if◌then◌else◌,
}
use airflow_dq_agent.Errors.{Result, ok, err, ok-injective, refuse_if-eq-ok, >>=-eq-ok}
use airflow_dq_agent.Contracts.Value.{Datetime}
use airflow_dq_agent.Contracts.Report.{CheckResult, QualitySuiteReport, incomplete}
use airflow_dq_agent.Contracts.Plan.{
  QualityEvidence, CandidateAction, Proposal, TargetSet, ExecutablePlanItem, PlanItem, executable,
  non_executable, executable_items, freeze_params, RemediationPlan,
}
use airflow_dq_agent.Quality.Registry.{CheckSpec}
use airflow_dq_agent.CheckPolicy.{CheckPolicyJustification, failed_checks_by_id, justify_action}
use airflow_dq_agent.CheckPolicy.Justified.{IsJustified, justify_action-IsJustified}
use airflow_dq_agent.Environment.{Env}
use airflow_dq_agent.Planning.Policy.{policy_fingerprint}
use airflow_dq_agent.Planning.Compiler.{
  TargetSetResolver, resolved_or_refuse, first_spec, authorize, is_duplicate, item_or_blocked,
  compile_action, compile_actions, block_all, omission_item, omitted_failures, compile_items,
  compile_remediation_plan,
}

-- An item that the check policy justifies: its evidence, parameters, table, targets and policy.
pub record IsAuthorizedItem (env : Env) (resolver : TargetSetResolver) (report : QualitySuiteReport)
    (failures : Dict CheckResult) (item : ExecutablePlanItem) : Type 0 where
  pub justification : CheckPolicyJustification
  pub justified : IsJustified env.catalog item.action_id item.evidence failures justification
  pub frozen : item.params ≡ freeze_params justification.params
  pub one_table : All (λ spec. spec.table ≡ item.table) justification.specs
  pub first : CheckSpec
  pub comes_first : first_spec justification.specs ≡ ok first
  pub resolved :
      resolver.resolve report.run_id first.check_id item.action_id item.table justification.params
      ≡ ok item.target_set
  pub fingerprinted :
      policy_fingerprint env justification.specs item.action_id ≡ ok item.policy_fingerprint

pub if-eq-ok {ℓ} :
    {A : Type ℓ} (test : Bool) (m n : Result A) {a : A}
    → (if test then m else n) ≡ ok a
    → (m ≡ ok a) ⊎ (n ≡ ok a)
if-eq-ok true m n h = inl h
if-eq-ok false m n h = inr h

resolved_or_refuse-eq-ok :
    (m : Result TargetSet) {t : TargetSet} → resolved_or_refuse m ≡ ok t → m ≡ ok t
resolved_or_refuse-eq-ok (ok t) h = h
resolved_or_refuse-eq-ok (err e) h = ground arith

same_table :
    (table : String) (specs : List CheckSpec)
    → any (λ spec. spec.table != table) specs ≡ false
    → All (λ spec. spec.table ≡ table) specs
same_table table [] h = tt
same_table table (spec ∷ specs) h =
    (!=→≡ spec.table table (ground arith), same_table table specs (ground arith))

module _ (env : Env) (resolver : TargetSetResolver) (report : QualitySuiteReport)
    (failures : Dict CheckResult) where
  abbrev Authorized : ExecutablePlanItem → Type 0
  Authorized = IsAuthorizedItem env resolver report failures

  abbrev pub AllAuthorized : List PlanItem → Type 0
  AllAuthorized items = All Authorized (executable_items items)

  pub authorize-IsAuthorizedItem :
      (index : ℕ) (requested : CandidateAction) (item : ExecutablePlanItem)
      → authorize env resolver report failures index requested ≡ ok item
      → Authorized item
        × (item.evidence ≡ requested.evidence)
        × (item.action_id ≡ requested.action_id)
  unfolding authorize
  authorize-IsAuthorizedItem index requested item h =
      let (j, justified, h₁) =
        >>=-eq-ok (justify_action env.catalog requested.action_id requested.evidence failures) _
          h in
      let (first, leads, h₂) = >>=-eq-ok (first_spec j.specs) _ h₁ in
      let (tables, h₃) = refuse_if-eq-ok (any (λ spec. spec.table != first.table) j.specs) _ _ h₂ in
      let (targets, resolved, h₄) = >>=-eq-ok (resolved_or_refuse _) _ h₃ in
      let (fingerprint, printed, h₅) =
        >>=-eq-ok (policy_fingerprint env j.specs requested.action_id) _ h₄ in
      subst
        (λ x.
          Authorized x × (x.evidence ≡ requested.evidence) × (x.action_id ≡ requested.action_id))
        (ok-injective h₅)
        (
          record {
            justification = j;
            justified =
                justify_action-IsJustified env.catalog requested.action_id requested.evidence
                  failures j justified;
            frozen = refl;
            one_table = same_table first.table j.specs tables;
            first = first;
            comes_first = leads;
            resolved = resolved_or_refuse-eq-ok _ resolved;
            fingerprinted = printed;
          },
          refl,
          refl,
        )

  item_or_blocked-Authorized :
      (index : ℕ) (requested : CandidateAction) (m : Result ExecutablePlanItem) (i : PlanItem)
      (covers : List String)
      → ((item : ExecutablePlanItem) → m ≡ ok item → Authorized item)
      → item_or_blocked failures index requested m ≡ ok (i, covers)
      → AllAuthorized (i ∷ [])
  item_or_blocked-Authorized index requested (ok item) i covers f h =
      let same : executable item ≡ i = ground arith in
      subst (λ x. AllAuthorized (x ∷ [])) same (f item refl, tt)
  item_or_blocked-Authorized index requested (err e) (executable item) covers f h = ground arith
  item_or_blocked-Authorized index requested (err e) (non_executable item) covers f h = tt

  compile_action-Authorized :
      (actions : List CandidateAction) (index : ℕ) (requested : CandidateAction) (i : PlanItem)
      (covers : List String)
      → compile_action env resolver report failures actions index requested ≡ ok (i, covers)
      → AllAuthorized (i ∷ [])
  unfolding compile_action
  compile_action-Authorized actions index requested i covers h =
      elim (if-eq-ok (is_duplicate actions requested) _ _ h) [
        | inl p ↦ subst (λ x. AllAuthorized (x ∷ [])) (ap (λ o. o.0) (ok-injective p)) tt
        | inr q ↦
            item_or_blocked-Authorized index requested
              (authorize env resolver report failures index requested) i covers
              (λ item e. (authorize-IsAuthorizedItem index requested item e).0) q
      ]

  All-executable :
      (i : PlanItem) (items : List PlanItem)
      → AllAuthorized (i ∷ [])
      → AllAuthorized items
      → AllAuthorized (i ∷ items)
  All-executable (executable item) items h k = (h.0, k)
  All-executable (non_executable item) items h k = k

  pub compile_actions-Authorized :
      (actions : List CandidateAction) (index : ℕ) (rest : List CandidateAction)
      (items : List PlanItem) (covered : List String)
      → compile_actions env resolver report failures actions index rest ≡ ok (items, covered)
      → AllAuthorized items
  unfolding compile_actions
  compile_actions-Authorized actions index [] items covered h =
      subst AllAuthorized (ap (λ o. o.0) (ok-injective h)) tt
  compile_actions-Authorized actions index (requested ∷ rest) items covered h =
      let (one, e, h₁) =
        >>=-eq-ok (compile_action env resolver report failures actions index requested) _ h in
      let (others, f, h₂) =
        >>=-eq-ok (compile_actions env resolver report failures actions (suc index) rest) _ h₁ in
      subst AllAuthorized (ap (λ o. o.0) (ok-injective h₂)) (
        All-executable one.0 others.0
          (compile_action-Authorized actions index requested one.0 one.1 e)
          (compile_actions-Authorized actions (suc index) rest others.0 others.1 f))

  All-executable-append :
      (xs ys : List PlanItem) → AllAuthorized xs → AllAuthorized ys → AllAuthorized (xs ++ ys)
  All-executable-append [] ys h k = k
  All-executable-append (executable item ∷ xs) ys h k = (h.0, All-executable-append xs ys h.1 k)
  All-executable-append (non_executable item ∷ xs) ys h k = All-executable-append xs ys h k

pub block_all-blocks :
    (index : ℕ) (actions : List CandidateAction) → executable_items (block_all index actions) ≡ []
unfolding block_all
block_all-blocks index [] = refl
block_all-blocks index (requested ∷ rest) = ground (arith, block_all-blocks (suc index) rest)

pub omission_item-blocks :
    (omitted : List QualityEvidence) → executable_items (omission_item omitted) ≡ []
omission_item-blocks [] = refl
omission_item-blocks (e ∷ omitted) = refl

compile_items-Authorized :
    (env : Env) (resolver : TargetSetResolver) (report : QualitySuiteReport)
    (actions : List CandidateAction) (items : List PlanItem)
    → compile_items env resolver report actions ≡ ok items
    → AllAuthorized env resolver report (failed_checks_by_id report) items
unfolding compile_items
compile_items-Authorized env resolver report actions items h =
    let failures = failed_checks_by_id report in
    let P = AllAuthorized env resolver report failures in
    elim (if-eq-ok (incomplete report) _ _ h) [
      | inl p ↦ subst P (ok-injective p) (rw (block_all-blocks 0 actions) tt)
      | inr q ↦
          let (one, e, h₁) =
            >>=-eq-ok (compile_actions env resolver report failures actions 0 actions) _ q in
          subst P (ok-injective h₁) (
            All-executable-append env resolver report failures one.0
              (omission_item (omitted_failures failures one.1))
              (compile_actions-Authorized env resolver report failures actions 0 actions one.0 one.1
                e)
              (rw (omission_item-blocks (omitted_failures failures one.1)) tt))
    ]

-- Every executable item of a compiled plan is justified by failed checks of the report that it cites,
-- holds the parameters that every cited check's policy derives, is on the one table of those checks,
-- has the target set that the resolver counted for it, and the fingerprint of the policy in force.
pub compile_remediation_plan-Authorized :
    (env : Env) (resolver : TargetSetResolver) (environment : Option String) (plan_id : String)
    (compiled_at : Datetime) (report : QualitySuiteReport) (candidate : Proposal)
    (plan : RemediationPlan)
    → compile_remediation_plan env resolver environment plan_id compiled_at report candidate
      ≡ ok plan
    → AllAuthorized env resolver report (failed_checks_by_id report) plan.items
unfolding compile_remediation_plan
compile_remediation_plan-Authorized env resolver environment plan_id compiled_at report candidate
      plan h =
    let (items, e, h₁) =
      >>=-eq-ok (compile_items env resolver report candidate.candidate_actions) _ h in
    subst (λ p. AllAuthorized env resolver report (failed_checks_by_id report) p.items)
      (ok-injective h₁)
      (compile_items-Authorized env resolver report candidate.candidate_actions items e)
