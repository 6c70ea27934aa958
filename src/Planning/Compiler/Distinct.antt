-- ===== src/Planning/Compiler/Distinct.antt =====
-- planning/compiler.py: the identities of a compiled plan's executable items.
use airflow_dq_agent.Prelude.{
  Option, ℕ, suc, String, ◌≡◌, refl, sym, subst, ap, ◌∙◌, Bool, true, false, inl, inr, Bool-cases,
  List, [], ◌∷◌, ◌++◌, Dict, eq_refl, any, select, length, ltb, list_eq, Pair, pair_eq, arith,
}
use airflow_dq_agent.Errors.{Result, ok, err, is_key_or_value_error, ok-injective, >>=-eq-ok}
use airflow_dq_agent.Contracts.Report.{CheckResult, QualitySuiteReport, incomplete}
use airflow_dq_agent.Contracts.Value.{Datetime}
use airflow_dq_agent.CheckPolicy.{failed_checks_by_id}
use airflow_dq_agent.Contracts.Plan.{
  CandidateAction, Proposal, RemediationPlan, ExecutablePlanItem, PlanItem, executable,
  non_executable, executable_items,
}
use airflow_dq_agent.Environment.{Env}
use airflow_dq_agent.Planning.Integrity.{Identity, identity_of, identity_eq}
use airflow_dq_agent.Planning.Compiler.{
  TargetSetResolver, candidate_action_identity, is_duplicate, item_or_blocked, authorize,
  compile_action, compile_actions, compile_items, omission_item, omitted_failures,
  compile_remediation_plan,
}
use airflow_dq_agent.Planning.Compiler.Authorized.{
  if-eq-ok, authorize-IsAuthorizedItem, block_all-blocks, omission_item-blocks,
}

abbrev pub item_identity : ExecutablePlanItem → Identity
item_identity item = identity_of item.action_id item.evidence

-- No item has the identity of one before it, nor of one seen.
abbrev pub Unseen : List Identity → List ExecutablePlanItem → Type 0
Unseen seen [] = Unit
Unseen seen (item ∷ items) =
    (any (identity_eq (item_identity item)) seen ≡ false) × Unseen (item_identity item ∷ seen) items

pair_list_refl : (xs : List Pair) → list_eq pair_eq xs xs ≡ true
pair_list_refl [] = refl
pair_list_refl ((a, b) ∷ xs) = rw (eq_refl a, eq_refl b, pair_list_refl xs) refl

identity_refl : (i : Identity) → identity_eq i i ≡ true
identity_refl (a, xs) = rw (eq_refl a, pair_list_refl xs) refl

module _ {ℓ} {A : Type ℓ} (test : A → Bool) where
  select_later :
      (xs : List A) (y : A) (ys : List A)
      → test y ≡ true
      → ltb 0 (length (select test (xs ++ (y ∷ ys)))) ≡ true
  select_later [] y ys h = rw h (ground arith)
  select_later (x ∷ xs) y ys h = ground (arith, select_later xs y ys h)

  select_twice :
      (xs : List A) (y : A) (ys : List A)
      → test y ≡ true
      → any test xs ≡ true
      → ltb 1 (length (select test (xs ++ (y ∷ ys)))) ≡ true
  select_twice [] y ys h k = cc
  select_twice (x ∷ xs) y ys h k = elim (Bool-cases (test x)) [
    | inl e ↦ let later = select_later xs y ys h in ground arith
    | inr e ↦ let twice = select_twice xs y ys h (ground arith) in ground arith
  ]

  any-append : (xs ys : List A) → any test xs ≡ true → any test (xs ++ ys) ≡ true
  any-append [] ys h = cc
  any-append (x ∷ xs) ys h = ground (arith, any-append xs ys)

  any_last : (xs : List A) (y : A) → test y ≡ true → any test (xs ++ (y ∷ [])) ≡ true
  any_last [] y h = ground arith
  any_last (x ∷ xs) y h = ground (arith, any_last xs y h)

module _ {ℓ} {A : Type ℓ} where
  append_one : (xs : List A) (y : A) (ys : List A) → (xs ++ (y ∷ [])) ++ ys ≡ xs ++ (y ∷ ys)
  append_one [] y ys = refl
  append_one (x ∷ xs) y ys = ap (λ zs. x ∷ zs) (append_one xs y ys)

-- What is seen was requested before.
abbrev Within : List Identity → List CandidateAction → Type 0
Within seen done =
    (test : Identity → Bool)
    → any test seen ≡ true
    → any (λ a. test (candidate_action_identity a)) done ≡ true

Within-later :
    (seen : List Identity) (done : List CandidateAction) (requested : CandidateAction)
    → Within seen done
    → Within seen (done ++ (requested ∷ []))
Within-later seen done requested w test h =
    any-append (λ a. test (candidate_action_identity a)) done (requested ∷ []) (w test h)

Within-seen :
    (seen : List Identity) (done : List CandidateAction) (requested : CandidateAction)
    → Within seen done
    → Within (candidate_action_identity requested ∷ seen) (done ++ (requested ∷ []))
Within-seen seen done requested w test h =
    elim (Bool-cases (test (candidate_action_identity requested))) [
      | inl e ↦ any_last (λ a. test (candidate_action_identity a)) done requested e
      | inr e ↦ Within-later seen done requested w test (rw e at h)
    ]

not_seen :
    (seen : List Identity) (done rest : List CandidateAction) (requested : CandidateAction)
    → Within seen done
    → is_duplicate (done ++ (requested ∷ rest)) requested ≡ false
    → any (identity_eq (candidate_action_identity requested)) seen ≡ false
unfolding is_duplicate
not_seen seen done rest requested w h =
    let own = candidate_action_identity requested in
    elim (Bool-cases (any (identity_eq own) seen)) [
      | inl e ↦
          let twice =
            select_twice (λ a. identity_eq own (candidate_action_identity a)) done requested rest
              (identity_refl own) (w (identity_eq own) e) in
          cc
      | inr e ↦ e
    ]

module _ (env : Env) (resolver : TargetSetResolver) (report : QualitySuiteReport)
    (failures : Dict CheckResult) (actions : List CandidateAction) where
  -- An executable item is made of a request that is no duplicate.
  abbrev Made : CandidateAction → PlanItem → Type 0
  Made requested (executable item) =
      (is_duplicate actions requested ≡ false)
      × (item_identity item ≡ candidate_action_identity requested)
  Made requested (non_executable item) = Unit

  item_or_blocked-Made :
      (index : ℕ) (requested : CandidateAction) (m : Result ExecutablePlanItem)
      (out : PlanItem × List String)
      → is_duplicate actions requested ≡ false
      → ((item : ExecutablePlanItem)
          → m ≡ ok item
          → item_identity item ≡ candidate_action_identity requested)
      → item_or_blocked failures index requested m ≡ ok out
      → Made requested out.0
  item_or_blocked-Made index requested (ok item) out new f h =
      subst (λ o. Made requested o.0) (ok-injective h) (new, f item refl)
  item_or_blocked-Made index requested (err e) out new f h =
      elim (if-eq-ok (is_key_or_value_error e) _ _ h) [
        | inl p ↦ subst (λ o. Made requested o.0) (ok-injective p) tt
        | inr q ↦ cc
      ]

  compile_action-Made :
      (index : ℕ) (requested : CandidateAction) (out : PlanItem × List String)
      → compile_action env resolver report failures actions index requested ≡ ok out
      → Made requested out.0
  unfolding compile_action
  compile_action-Made index requested out h = elim (Bool-cases (is_duplicate actions requested)) [
    | inl p ↦ subst (λ o. Made requested o.0) (ok-injective (rw p at h)) tt
    | inr q ↦
        item_or_blocked-Made index requested
          (authorize env resolver report failures index requested) out q
          (λ item e.
            let a =
              authorize-IsAuthorizedItem env resolver report failures index requested item e in
            cc (a.1, a.2))
          (rw q at h)
  ]

  compile_actions-Unseen :
      (index : ℕ) (done rest : List CandidateAction) (seen : List Identity)
      (out : List PlanItem × List String)
      → actions ≡ done ++ rest
      → Within seen done
      → compile_actions env resolver report failures actions index rest ≡ ok out
      → Unseen seen (executable_items out.0)
  unfolding compile_actions
  compile_actions-Unseen index done [] seen out split w h =
      subst (λ o. Unseen seen (executable_items o.0)) (ok-injective h) tt
  compile_actions-Unseen index done (requested ∷ rest) seen out split w h =
      let (one, e, h₁) =
        >>=-eq-ok (compile_action env resolver report failures actions index requested) _ h in
      let (others, f, h₂) =
        >>=-eq-ok (compile_actions env resolver report failures actions (suc index) rest) _ h₁ in
      subst (λ o. Unseen seen (executable_items o.0)) (ok-injective h₂)
        (joined index done rest requested seen one others split w
          (compile_action-Made index requested one e)
          (λ s v.
            compile_actions-Unseen (suc index) (done ++ (requested ∷ [])) rest s others
              (split ∙ sym (append_one done requested rest)) v f))
    where
      joined :
          (index : ℕ) (done rest : List CandidateAction) (requested : CandidateAction)
          (seen : List Identity) (one : PlanItem × List String)
          (others : List PlanItem × List String)
          → actions ≡ done ++ (requested ∷ rest)
          → Within seen done
          → Made requested one.0
          → ((s : List Identity)
              → Within s (done ++ (requested ∷ []))
              → Unseen s (executable_items others.0))
          → Unseen seen (executable_items (one.0 ∷ others.0))
      joined index done rest requested seen (executable item, covers) others split w made next = (
        rw made.1 (
            not_seen seen done rest requested w
              (subst (λ xs. is_duplicate xs requested ≡ false) split made.0)),
        rw made.1
            (next (candidate_action_identity requested ∷ seen) (Within-seen seen done requested w)),
      )
      joined index done rest requested seen (non_executable item, covers) others split w made next =
          next seen (Within-later seen done requested w)

  pub compile_actions-distinct :
      (out : List PlanItem × List String)
      → compile_actions env resolver report failures actions 0 actions ≡ ok out
      → Unseen [] (executable_items out.0)
  compile_actions-distinct out h = compile_actions-Unseen 0 [] actions [] out refl (λ test p. cc) h

executable-append :
    (seen : List Identity) (xs ys : List PlanItem)
    → executable_items ys ≡ []
    → Unseen seen (executable_items xs)
    → Unseen seen (executable_items (xs ++ ys))
executable-append seen [] ys h u = rw h tt
executable-append seen (executable item ∷ xs) ys h u =
    (u.0, executable-append (item_identity item ∷ seen) xs ys h u.1)
executable-append seen (non_executable item ∷ xs) ys h u = executable-append seen xs ys h u

compile_items-distinct :
    (env : Env) (resolver : TargetSetResolver) (report : QualitySuiteReport)
    (actions : List CandidateAction) (items : List PlanItem)
    → compile_items env resolver report actions ≡ ok items
    → Unseen [] (executable_items items)
unfolding compile_items
compile_items-distinct env resolver report actions items h =
    let failures = failed_checks_by_id report in
    elim (if-eq-ok (incomplete report) _ _ h) [
      | inl p ↦
          subst (λ is. Unseen [] (executable_items is)) (ok-injective p)
            (rw (block_all-blocks 0 actions) tt)
      | inr q ↦
          let (one, e, h₁) =
            >>=-eq-ok (compile_actions env resolver report failures actions 0 actions) _ q in
          subst (λ is. Unseen [] (executable_items is)) (ok-injective h₁)
            (executable-append [] one.0 (omission_item (omitted_failures failures one.1))
              (omission_item-blocks (omitted_failures failures one.1))
              (compile_actions-distinct env resolver report failures actions one e))
    ]

-- No two executable items of a compiled plan have the same action on the same evidence.
pub compile_remediation_plan-distinct :
    (env : Env) (resolver : TargetSetResolver) (environment : Option String) (plan_id : String)
    (compiled_at : Datetime) (report : QualitySuiteReport) (candidate : Proposal)
    (plan : RemediationPlan)
    → compile_remediation_plan env resolver environment plan_id compiled_at report candidate
      ≡ ok plan
    → Unseen [] (executable_items plan.items)
unfolding compile_remediation_plan
compile_remediation_plan-distinct env resolver environment plan_id compiled_at report candidate plan
      h =
    let (items, e, h₁) =
      >>=-eq-ok (compile_items env resolver report candidate.candidate_actions) _ h in
    subst (λ p. Unseen [] (executable_items p.items)) (ok-injective h₁)
      (compile_items-distinct env resolver report candidate.candidate_actions items e)
