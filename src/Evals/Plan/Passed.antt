-- ===== src/Evals/Plan/Passed.antt =====
-- evals/harness.py: when the evaluation of a plan passes.
use airflow_dq_agent.Prelude.{
  ◌≤◌, arith, map, select, All, Bool-cases, inl, inr, not-true, String, ◌≡◌, refl, sym, ap, ◌∙◌,
  ◌↔◌, true, false, not, ◌&&◌, &&-eq-true, List, [], ◌∷◌, ◌==◌, ==→≡, eq_refl, is_empty, length,
  nat_eq,
}
use airflow_dq_agent.Errors.{ok, Refusing, >>=-eq-ok, ok-injective}
use airflow_dq_agent.Contracts.Plan.{
  ExecutablePlanItem, PlanItem, executable, non_executable, RemediationPlan, executable_items,
}
use airflow_dq_agent.Contracts.Evaluation.{EvalReport}
use airflow_dq_agent.Environment.{Env}
use airflow_dq_agent.Planning.Integrity.{verify_plan_integrity}
use airflow_dq_agent.Planning.Policy.{current_policy_fingerprint}
use airflow_dq_agent.Evals.Scores.{all_passed, failed_scores-is_empty, reaches-all_or_nothing}
use airflow_dq_agent.Evals.Plan.{target_errors, compiled_whole, plan_scores, evaluate_plan}

plan_scores-passed :
    (plan : RemediationPlan) (current : String)
    → all_passed (plan_scores plan current) ≡ (
        compiled_whole plan
        && ((current == plan.policy_fingerprint) && (is_empty (target_errors plan) && true)))
unfolding plan_scores
plan_scores-passed plan current =
    rw
      (
        reaches-all_or_nothing (compiled_whole plan),
        reaches-all_or_nothing (current == plan.policy_fingerprint),
        reaches-all_or_nothing (is_empty (target_errors plan)),
      )
      refl

no_texts : (xs : List String) → is_empty xs ≡ true → xs ≡ []
no_texts [] h = refl
no_texts (x ∷ xs) h = cc

-- An item that a plan may be applied with: an executable one, with a target fingerprint.
abbrev pub IsTargeted : PlanItem → Type 0
IsTargeted (executable item) = (item.target_set.fingerprint == "") ≡ false
IsTargeted (non_executable item) = ⊥

-- What a passed evaluation says of its plan.
pub record IsSound (env : Env) (plan : RemediationPlan) : Type 0 where
  pub unblocked : plan.blocked ≡ false
  pub current : current_policy_fingerprint env plan ≡ ok plan.policy_fingerprint
  pub targeted : All IsTargeted plan.items

length-executable_items : (items : List PlanItem) → length (executable_items items) ≤ length items
length-executable_items [] = omega arith
length-executable_items (executable item ∷ items) =
    let rest = length-executable_items items in omega arith
length-executable_items (non_executable item ∷ items) =
    let rest = length-executable_items items in omega arith

abbrev untargeted : List ExecutablePlanItem → List ExecutablePlanItem
untargeted = select (λ item. item.target_set.fingerprint == "")

abbrev item_ids : List ExecutablePlanItem → List String
item_ids = map (λ item. item.item_id)

untargeted-cons :
    (item : ExecutablePlanItem) (items : List ExecutablePlanItem)
    → item_ids (untargeted (item ∷ items)) ≡ []
    → ((item.target_set.fingerprint == "") ≡ false) × (item_ids (untargeted items) ≡ [])
untargeted-cons item items h = elim (Bool-cases (item.target_set.fingerprint == "")) [
  | inl missing ↦ absurd (ground arith)
  | inr found ↦ (found, ground arith)
]

All-IsTargeted :
    (items : List PlanItem)
    → nat_eq (length (executable_items items)) (length items) ≡ true
    → item_ids (untargeted (executable_items items)) ≡ []
    → All IsTargeted items
All-IsTargeted [] h k = tt
All-IsTargeted (executable item ∷ items) h k =
    let (found, rest) = untargeted-cons item (executable_items items) k in
    (found, All-IsTargeted items (ground arith) rest)
All-IsTargeted (non_executable item ∷ items) h k =
    let few = length-executable_items items in absurd (ground arith)

whole_of :
    (items : List PlanItem)
    → All IsTargeted items
    → nat_eq (length (executable_items items)) (length items) ≡ true
whole_of [] h = refl
whole_of (executable item ∷ items) h = let rest = whole_of items h.1 in ground arith
whole_of (non_executable item ∷ items) h = absurd h.0

no_errors :
    (items : List PlanItem)
    → All IsTargeted items
    → item_ids (untargeted (executable_items items)) ≡ []
no_errors [] h = refl
no_errors (executable item ∷ items) h = rw h.0 (no_errors items h.1)
no_errors (non_executable item ∷ items) h = absurd h.0

passed-IsSound :
    (env : Env) (plan : RemediationPlan) (current : String)
    → current_policy_fingerprint env plan ≡ ok current
    → all_passed (plan_scores plan current) ≡ true
    → IsSound env plan
passed-IsSound env plan current e h =
    let split = sym (plan_scores-passed plan current) ∙ h in
    let (a, b) = &&-eq-true (compiled_whole plan) _ split in
    let (c, d) = &&-eq-true (current == plan.policy_fingerprint) _ b in
    let (f, g) = &&-eq-true (is_empty (target_errors plan)) _ d in
    let (i, j) = &&-eq-true (not plan.blocked) _ a in
    record {
      unblocked = not-true plan.blocked i;
      current = e ∙ ap ok (==→≡ current plan.policy_fingerprint c);
      targeted = All-IsTargeted plan.items j (no_texts (target_errors plan) f);
    }

IsSound-passed :
    (env : Env) (plan : RemediationPlan) (current : String)
    → current_policy_fingerprint env plan ≡ ok current
    → IsSound env plan
    → all_passed (plan_scores plan current) ≡ true
IsSound-passed env plan current e s =
    let same : current ≡ plan.policy_fingerprint = ok-injective (sym e ∙ s.current) in
    plan_scores-passed plan current
    ∙ rw
        (
          s.unblocked,
          whole_of plan.items s.targeted,
          no_errors plan.items s.targeted,
          same,
          eq_refl plan.policy_fingerprint,
        )
        refl

-- The evaluation of a plan passes exactly when the plan is unblocked, its policy fingerprint is the
-- one in force, and every item of it is executable and has a target fingerprint that is not empty.
pub evaluate_plan-passed_iff :
    (env : Env) (evaluation_id : String) (plan : RemediationPlan) (evaluation : EvalReport)
    → evaluate_plan env evaluation_id plan ≡ ok evaluation
    → (evaluation.passed ≡ true) ↔ IsSound env plan
unfolding evaluate_plan
evaluate_plan-passed_iff env evaluation_id plan evaluation h =
    let (_, own, h₁) = >>=-eq-ok (verify_plan_integrity env Refusing.evaluation plan) _ h in
    let (current, e, h₂) = >>=-eq-ok (current_policy_fingerprint env plan) _ h₁ in
    let scores = plan_scores plan current in
    let passed : evaluation.passed ≡ all_passed scores =
      sym (ap (λ r. r.passed) (ok-injective h₂)) ∙ failed_scores-is_empty scores in
    (
      λ p. passed-IsSound env plan current e (sym passed ∙ p),
      λ s. passed ∙ IsSound-passed env plan current e s,
    )
