-- ===== src/Evals/Candidate/Passed.antt =====
-- evals/harness.py: what a proposal that passes its evaluation satisfies.
use airflow_dq_agent.Prelude.{
  String, ◌≡◌, refl, sym, subst, ap, ◌∙◌, Bool, true, false, not, ◌&&◌, &&-eq-true, ◌||◌, List, [],
  ◌∷◌, ◌++◌, map, ◌==◌, Dict, has_key, keys, member, select, is_empty, All, All-mono, Bool-cases,
  inl, inr, eq_iff, arith,
}
use airflow_dq_agent.Errors.{Result, ok, err}
use airflow_dq_agent.Contracts.Report.{CheckResult, QualitySuiteReport, incomplete}
use airflow_dq_agent.Contracts.Plan.{CandidateAction, Proposal}
use airflow_dq_agent.Contracts.Evaluation.{EvalScore}
use airflow_dq_agent.Quality.Registry.{Catalog}
use airflow_dq_agent.CheckPolicy.{CheckPolicyJustification, failed_checks_by_id, justify_action}
use airflow_dq_agent.CheckPolicy.Justified.{IsJustified, justify_action-IsJustified}
use airflow_dq_agent.Environment.{Env}
use airflow_dq_agent.Evals.Scores.{all_passed, failed_scores-is_empty, reaches-all_or_nothing}
use airflow_dq_agent.Evals.Candidate.{
  Validated, valid, invalid, all_evidence, is_justified, illegal_actions, covered_checks,
  omitted_checks, is_destructive, destructive_score, check_policy_score, candidate_scores,
  completeness_scores, evidence_score, groundedness_score, allowlist_score, check_ids, action_ids,
  evaluate_proposal,
}

abbrev pub IsJustifiedAction : Catalog → Dict CheckResult → CandidateAction → Type 0
IsJustifiedAction catalog failures action =
    (j : CheckPolicyJustification) × IsJustified catalog action.action_id action.evidence failures j

-- What makes a proposal fit to be compiled: the report is complete, no action is destructive by its
-- name, every action is justified, and every failed check is cited by one.
pub record IsEligible (catalog : Catalog) (report : QualitySuiteReport) (proposal : Proposal)
    : Type 0 where
  pub complete : incomplete report ≡ false
  pub harmless : All (λ a. is_destructive a.action_id ≡ false) proposal.candidate_actions
  pub justified :
      All (IsJustifiedAction catalog (failed_checks_by_id report)) proposal.candidate_actions
  pub covered :
      (k : String)
      → has_key k (failed_checks_by_id report) ≡ true
      → member k (check_ids (all_evidence proposal.candidate_actions)) ≡ true

all_passed-append :
    (xs ys : List EvalScore) → all_passed (xs ++ ys) ≡ (all_passed xs && all_passed ys)
all_passed-append [] ys = refl
all_passed-append (x ∷ xs) ys = ground (arith, all_passed-append xs ys)

complete-passed :
    (report : QualitySuiteReport)
    → all_passed (completeness_scores report) ≡ true
    → incomplete report ≡ false
complete-passed report h = ground arith

none_selected {ℓ} :
    {A : Type ℓ} (test : A → Bool) (xs : List A)
    → is_empty (select test xs) ≡ true
    → All (λ x. test x ≡ false) xs
none_selected test [] h = tt
none_selected test (x ∷ xs) h = (ground arith, none_selected test xs (ground arith))

is_empty-map {ℓ κ} :
    {A : Type ℓ} {B : Type κ} (f : A → B) (xs : List A) → is_empty (map f xs) ≡ is_empty xs
is_empty-map f [] = refl
is_empty-map f (x ∷ xs) = refl

harmless-passed :
    (actions : List CandidateAction)
    → is_empty (select is_destructive (action_ids actions)) ≡ true
    → All (λ a. is_destructive a.action_id ≡ false) actions
harmless-passed [] h = tt
harmless-passed (a ∷ actions) h = (ground arith, harmless-passed actions (ground arith))

module _ (catalog : Catalog) (failures : Dict CheckResult) where
  is_justified-IsJustifiedAction :
      (action : CandidateAction)
      → not (is_justified catalog failures action) ≡ false
      → IsJustifiedAction catalog failures action
  is_justified-IsJustifiedAction action h =
      found (justify_action catalog action.action_id action.evidence failures) refl h
    where
      found :
          (r : Result CheckPolicyJustification)
          → justify_action catalog action.action_id action.evidence failures ≡ r
          → not (elim r [ ok _ ↦ true | err _ ↦ false ]) ≡ false
          → IsJustifiedAction catalog failures action
      found (ok j) e h =
          (j, justify_action-IsJustified catalog action.action_id action.evidence failures j e)
      found (err e) p h = cc

  select-is_justified :
      (actions : List CandidateAction)
      → All (λ a. not (is_justified catalog failures a) ≡ false) actions
      → select (is_justified catalog failures) actions ≡ actions
  select-is_justified [] h = refl
  select-is_justified (a ∷ actions) h = ground (arith, h.0, select-is_justified actions h.1)

member-keys :
    (k : String) (failures : Dict CheckResult) → has_key k failures ≡ member k (keys failures)
member-keys k [] = refl
member-keys k ((j, failed) ∷ failures) = ap (λ b. j == k || b) (member-keys k failures)

none_omitted :
    (k : String) (covered ks : List String)
    → is_empty (select (λ j. not (member j covered)) ks) ≡ true
    → member k ks ≡ true
    → member k covered ≡ true
none_omitted k covered [] h m = cc
none_omitted k covered (j ∷ ks) h m = elim (Bool-cases (j == k)) [
  | inl e ↦ subst (λ i. member i covered ≡ true) ((eq_iff j k).0 e) (ground arith)
  | inr e ↦ none_omitted k covered ks (ground arith) (ground arith)
]

valid-IsEligible :
    (env : Env) (report : QualitySuiteReport) (proposal : Proposal)
    → all_passed (candidate_scores env report (valid proposal)) ≡ true
    → incomplete report ≡ false
    → IsEligible env.catalog report proposal
unfolding destructive_score check_policy_score illegal_actions omitted_checks covered_checks
valid-IsEligible env report proposal h whole =
    let catalog = env.catalog in
    let failures = failed_checks_by_id report in
    let actions = proposal.candidate_actions in
    let (_, h₁) =
      &&-eq-true (evidence_score report proposal env.settings.eval_citation_threshold).passed _ h in
    let (_, h₂) =
      &&-eq-true
        (groundedness_score report proposal env.settings.eval_groundedness_threshold).passed _ h₁ in
    let (a, h₃) = &&-eq-true (destructive_score proposal).passed _ h₂ in
    let (_, h₄) = &&-eq-true (allowlist_score proposal).passed _ h₃ in
    let (b, _) = &&-eq-true (check_policy_score catalog report proposal).passed _ h₄ in
    let (legal, full) =
      &&-eq-true (is_empty (illegal_actions catalog failures actions)) _
        (sym (reaches-all_or_nothing _) ∙ b) in
    let kept =
      none_selected (λ a. not (is_justified catalog failures a)) actions
        (sym (is_empty-map _ _) ∙ legal) in
    record {
      complete = whole;
      harmless = harmless-passed actions (sym (reaches-all_or_nothing _) ∙ a);
      justified = All-mono _ _ actions (is_justified-IsJustifiedAction catalog failures) kept;
      covered = λ k m.
          subst (λ chosen. member k (check_ids (all_evidence chosen)) ≡ true)
            (select-is_justified catalog failures actions kept)
            (none_omitted k _ (keys failures) full (sym (member-keys k failures) ∙ m));
    }

-- A candidate that passes its evaluation is a valid proposal, of a complete report, whose actions have
-- no destructive name and are all justified, and which cites every failed check.
pub evaluate_proposal-IsEligible :
    (env : Env) (evaluation_id : String) (report : QualitySuiteReport) (candidate : Validated)
    → (evaluate_proposal env evaluation_id report candidate).passed ≡ true
    → (proposal : Proposal) × (candidate ≡ valid proposal) × IsEligible env.catalog report proposal
unfolding evaluate_proposal
evaluate_proposal-IsEligible env evaluation_id report (invalid errors) h =
    let p : false ≡ true =
      sym (
        failed_scores-is_empty
          (candidate_scores env report (invalid errors) ++ completeness_scores report))
      ∙ h in
    cc
evaluate_proposal-IsEligible env evaluation_id report (valid proposal) h =
    let scores = candidate_scores env report (valid proposal) in
    let completeness = completeness_scores report in
    let all : all_passed (scores ++ completeness) ≡ true =
      sym (failed_scores-is_empty (scores ++ completeness)) ∙ h in
    let (a, b) =
      &&-eq-true (all_passed scores) _ (sym (all_passed-append scores completeness) ∙ all) in
    (proposal, refl, valid-IsEligible env report proposal a (complete-passed report b))
