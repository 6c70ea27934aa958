-- ===== src/Planning/Compiler/Covered.antt =====
-- planning/compiler.py: the failed checks that a compiled plan cites.
use airflow_dq_agent.Prelude.{
  ℕ, suc, String, ◌≡◌, refl, subst, sym, ◌∙◌, Bool, true, false, ◌||◌, inl, inr, Bool-cases, List,
  [], ◌∷◌, ◌++◌, map, Option, Dict, ◌==◌, eq_iff, has_key, member, any, select, arith,
}
use airflow_dq_agent.Errors.{Result, ok, err, is_key_or_value_error, ok-injective, >>=-eq-ok, ◌>>=◌}
use airflow_dq_agent.Contracts.Value.{Datetime}
use airflow_dq_agent.Contracts.Report.{CheckResult, QualitySuiteReport, incomplete}
use airflow_dq_agent.Contracts.Plan.{
  QualityEvidence, CandidateAction, Proposal, ExecutablePlanItem, PlanItem, executable,
  non_executable, RemediationPlan,
}
use airflow_dq_agent.CheckPolicy.{failed_checks_by_id}
use airflow_dq_agent.Environment.{Env}
use airflow_dq_agent.Planning.Compiler.{
  TargetSetResolver, authorize, cited_failures, is_duplicate, item_or_blocked, blocked_item,
  reason_of, duplicate_reason, compile_action, compile_actions, omission_item, omitted_failures,
  compile_items, compile_remediation_plan,
}
use airflow_dq_agent.Planning.Compiler.Authorized.{if-eq-ok, authorize-IsAuthorizedItem}

abbrev pub cites : String → List QualityEvidence → Bool
cites check_id evidence = member check_id (map (λ e. e.check_id) evidence)

abbrev pub item_evidence : PlanItem → List QualityEvidence
item_evidence (executable item) = item.evidence
item_evidence (non_executable item) = item.evidence

-- Some item of the plan cites the check.
abbrev pub mentions : String → List PlanItem → Bool
mentions check_id items = any (λ i. cites check_id (item_evidence i)) items

-- Some executable item cites the check.
abbrev pub remedies : String → List ExecutablePlanItem → Bool
remedies check_id items = any (λ item. cites check_id item.evidence) items

pub member-append :
    (k : String) (xs ys : List String) → member k (xs ++ ys) ≡ (member k xs || member k ys)
member-append k [] ys = refl
member-append k (x ∷ xs) ys = ground (arith, member-append k xs ys)

mentions-append :
    (k : String) (xs ys : List PlanItem) → mentions k (xs ++ ys) ≡ (mentions k xs || mentions k ys)
mentions-append k [] ys = refl
mentions-append k (x ∷ xs) ys = ground (arith, mentions-append k xs ys)

member-select :
    (k : String) (test : String → Bool) (xs : List String)
    → member k (select test xs) ≡ true
    → member k xs ≡ true
member-select k test [] h = h
member-select k test (x ∷ xs) h = ground (arith, member-select k test xs)

or_false : (b : Bool) → b ≡ true → (b || false) ≡ true
or_false true h = refl
or_false false h = h

-- What is selected of the cited checks is cited.
cited_failures-cites :
    (failures : Dict CheckResult) (evidence : List QualityEvidence) (k : String)
    → member k (cited_failures failures evidence) ≡ true
    → cites k evidence ≡ true
cited_failures-cites failures evidence k h =
    member-select k (λ check_id. has_key check_id failures) (map (λ e. e.check_id) evidence) h

module _ (env : Env) (resolver : TargetSetResolver) (report : QualitySuiteReport)
    (failures : Dict CheckResult) (k : String) where
  -- The item cites what its action covers.
  abbrev Covers : PlanItem × List String → Type 0
  Covers out = member k out.1 ≡ true → mentions k (out.0 ∷ []) ≡ true

  authorize-evidence :
      (index : ℕ) (requested : CandidateAction) (item : ExecutablePlanItem)
      → authorize env resolver report failures index requested ≡ ok item
      → item.evidence ≡ requested.evidence
  authorize-evidence index requested item h =
      (authorize-IsAuthorizedItem env resolver report failures index requested item h).1

  blocked-Covers :
      (index : ℕ) (requested : CandidateAction) (reason : String)
      → Covers
          (blocked_item index requested.evidence reason, cited_failures failures requested.evidence)
  blocked-Covers index requested reason h =
      or_false _ (cited_failures-cites failures requested.evidence k h)

  item_or_blocked-Covers :
      (index : ℕ) (requested : CandidateAction) (m : Result ExecutablePlanItem)
      (out : PlanItem × List String)
      → ((item : ExecutablePlanItem) → m ≡ ok item → item.evidence ≡ requested.evidence)
      → item_or_blocked failures index requested m ≡ ok out
      → Covers out
  item_or_blocked-Covers index requested (ok item) out f h =
      subst Covers (ok-injective h) (λ p. rw (f item refl) (or_false _ p))
  item_or_blocked-Covers index requested (err e) out f h =
      elim (if-eq-ok (is_key_or_value_error e) _ _ h) [
        | inl p ↦ subst Covers (ok-injective p) (blocked-Covers index requested (reason_of e))
        | inr q ↦ cc
      ]

  compile_action-Covers :
      (actions : List CandidateAction) (index : ℕ) (requested : CandidateAction)
      (out : PlanItem × List String)
      → compile_action env resolver report failures actions index requested ≡ ok out
      → Covers out
  unfolding compile_action
  compile_action-Covers actions index requested out h =
      elim (if-eq-ok (is_duplicate actions requested) _ _ h) [
        | inl p ↦ subst Covers (ok-injective p) (blocked-Covers index requested duplicate_reason)
        | inr q ↦
            item_or_blocked-Covers index requested
              (authorize env resolver report failures index requested) out
              (authorize-evidence index requested) q
      ]

  abbrev CoversAll : List PlanItem × List String → Type 0
  CoversAll out = member k out.1 ≡ true → mentions k out.0 ≡ true

  either :
      (a b c d : Bool)
      → (c ≡ true → (a || false) ≡ true)
      → (d ≡ true → b ≡ true)
      → (c || d) ≡ true
      → (a || b) ≡ true
  either true b c d f g h = refl
  either false b true d f g h = absurd (ground (arith, f refl))
  either false b false d f g h = g h

  compile_actions-CoversAll :
      (actions : List CandidateAction) (index : ℕ) (rest : List CandidateAction)
      (out : List PlanItem × List String)
      → compile_actions env resolver report failures actions index rest ≡ ok out
      → CoversAll out
  unfolding compile_actions
  compile_actions-CoversAll actions index [] out h = subst CoversAll (ok-injective h) (λ p. p)
  compile_actions-CoversAll actions index (requested ∷ rest) out h =
      let (one, e, h₁) =
        >>=-eq-ok (compile_action env resolver report failures actions index requested) _ h in
      let (others, f, h₂) =
        >>=-eq-ok (compile_actions env resolver report failures actions (suc index) rest) _ h₁ in
      subst CoversAll (ok-injective h₂) (λ p.
        either (cites k (item_evidence one.0)) (mentions k others.0) (member k one.1)
          (member k others.1) (compile_action-Covers actions index requested one e)
          (compile_actions-CoversAll actions (suc index) rest others f)
          (sym (member-append k one.1 others.1) ∙ p))

-- An omitted failure is reported.
omitted_failures-cites :
    (failures : Dict CheckResult) (covered : List String) (k : String)
    → has_key k failures ≡ true
    → member k covered ≡ false
    → cites k (omitted_failures failures covered) ≡ true
unfolding omitted_failures
omitted_failures-cites [] covered k h n = cc
omitted_failures-cites ((j, failed) ∷ failures) covered k h n = elim (Bool-cases (j == k)) [
  | inl e ↦
      let same = (eq_iff j k).0 e in
      let new : member j covered ≡ false = subst (λ x. member x covered ≡ false) (sym same) n in
      rw (new, e) refl
  | inr e ↦ ground (arith, omitted_failures-cites failures covered k)
]

omission_item-mentions :
    (omitted : List QualityEvidence) (k : String)
    → cites k omitted ≡ true
    → mentions k (omission_item omitted) ≡ true
omission_item-mentions [] k h = h
omission_item-mentions (e ∷ omitted) k h = or_false _ h

compile_items-mentions :
    (env : Env) (resolver : TargetSetResolver) (report : QualitySuiteReport)
    (actions : List CandidateAction) (items : List PlanItem) (k : String)
    → compile_items env resolver report actions ≡ ok items
    → incomplete report ≡ false
    → has_key k (failed_checks_by_id report) ≡ true
    → mentions k items ≡ true
unfolding compile_items
compile_items-mentions env resolver report actions items k h whole failing =
    let failures = failed_checks_by_id report in
    let compiled = compile_actions env resolver report failures actions 0 actions in
    let q : (compiled >>= λ o. ok (o.0 ++ omission_item (omitted_failures failures o.1)))
        ≡ ok items =
      rw whole at h in
    let (one, e, h₁) = >>=-eq-ok compiled _ q in
    let others = omission_item (omitted_failures failures one.1) in
    let split = mentions-append k one.0 others in
    subst (λ x. mentions k x ≡ true) (ok-injective h₁)
      (elim (Bool-cases (member k one.1)) [
        | inl p ↦
            let found =
              compile_actions-CoversAll env resolver report failures k actions 0 actions one e p in
            ground arith
        | inr p ↦
            let found =
              omission_item-mentions (omitted_failures failures one.1) k
                (omitted_failures-cites failures one.1 k failing p) in
            ground arith
      ])

-- Of a complete report, no failed check is lost: some item of the compiled plan cites it.
pub compile_remediation_plan-mentions :
    (env : Env) (resolver : TargetSetResolver) (environment : Option String) (plan_id : String)
    (compiled_at : Datetime) (report : QualitySuiteReport) (candidate : Proposal)
    (plan : RemediationPlan) (k : String)
    → compile_remediation_plan env resolver environment plan_id compiled_at report candidate
      ≡ ok plan
    → incomplete report ≡ false
    → has_key k (failed_checks_by_id report) ≡ true
    → mentions k plan.items ≡ true
unfolding compile_remediation_plan
compile_remediation_plan-mentions env resolver environment plan_id compiled_at report candidate plan
      k h whole failing =
    let (items, e, h₁) =
      >>=-eq-ok (compile_items env resolver report candidate.candidate_actions) _ h in
    subst (λ p. mentions k p.items ≡ true) (ok-injective h₁)
      (compile_items-mentions env resolver report candidate.candidate_actions items k e whole
        failing)
