-- ===== src/Agent/Sanitize/Bounded.antt =====
-- agent/sanitize.py: what crosses of the requests.
use airflow_dq_agent.Prelude.{
  String, ◌≡◌, refl, sym, ap, ◌∙◌, List, [], ◌∷◌, map, Dict, get, All, All-get, arith,
}
use airflow_dq_agent.Errors.{Result, ok, err, ok-injective, >>=-eq-ok}
use airflow_dq_agent.Contracts.Tables.{or_key_error-eq-ok}
use airflow_dq_agent.Contracts.Report.{CheckResult, QualitySuiteReport}
use airflow_dq_agent.Contracts.Plan.{QualityEvidence, CandidateAction, Proposal}
use airflow_dq_agent.Quality.Registry.{CheckSpec, get_check_spec, Catalog}
use airflow_dq_agent.Quality.Registration.Added.{IsKeyed}
use airflow_dq_agent.CheckPolicy.{CheckPolicyJustification, failed_checks_by_id, justify_action}
use airflow_dq_agent.CheckPolicy.Justified.{
  IsCited, AllCited, IsJustified, justify_action-IsJustified,
}
use airflow_dq_agent.Agent.Sanitize.{
  bounded_or_refuse, rebuilt_evidence, safe_rationale, safe_action, safe_actions, safe_proposal,
}

-- The action as it crosses: its rationale is replaced.
abbrev pub without_text : CandidateAction → CandidateAction
without_text action = record action { rationale = safe_rationale }

abbrev pub IsJustifiedRequest : Catalog → Dict CheckResult → CandidateAction → Type 0
IsJustifiedRequest catalog failures action =
    (j : CheckPolicyJustification) × IsJustified catalog action.action_id action.evidence failures j

bounded_or_refuse-eq-ok {ℓ} :
    {A : Type ℓ} (m : Result A) {a : A} → bounded_or_refuse m ≡ ok a → m ≡ ok a
bounded_or_refuse-eq-ok (ok a) h = h
bounded_or_refuse-eq-ok (err e) h = ground arith

module _ (catalog : Catalog) (keyed : IsKeyed catalog) (failures : Dict CheckResult) where
  cited-check_id :
      (item : QualityEvidence) (spec : CheckSpec)
      → IsCited catalog failures item spec
      → spec.check_id ≡ item.check_id
  unfolding get_check_spec
  cited-check_id item spec c =
      let (k, same, own) =
        All-get (λ entry. entry.0 ≡ entry.1.check_id) item.check_id catalog.check_specs keyed
          (or_key_error-eq-ok item.check_id (get item.check_id catalog.check_specs) c.declared) in
      sym own ∙ same

  rebuilt_evidence-same :
      (evidence : List QualityEvidence) (specs : List CheckSpec)
      → AllCited catalog failures evidence specs
      → rebuilt_evidence failures specs ≡ ok evidence
  unfolding rebuilt_evidence
  rebuilt_evidence-same [] [] h = refl
  rebuilt_evidence-same [] (spec ∷ specs) h = absurd h
  rebuilt_evidence-same (item ∷ evidence) [] h = absurd h
  rebuilt_evidence-same (item ∷ evidence) (spec ∷ specs) h =
      rw
        (
          cited-check_id item spec h.0,
          h.0.reported,
          rebuilt_evidence-same evidence specs h.1,
          h.0.same_contract,
        )
        refl

  safe_action-bounded :
      (requested action : CandidateAction)
      → safe_action catalog failures requested ≡ ok action
      → (action ≡ without_text requested) × IsJustifiedRequest catalog failures requested
  unfolding safe_action
  safe_action-bounded requested action h =
      let (j, e, h₁) =
        >>=-eq-ok
          (bounded_or_refuse
            (justify_action catalog requested.action_id requested.evidence failures))
          _ h in
      let justified =
        justify_action-IsJustified catalog requested.action_id requested.evidence failures j
          (bounded_or_refuse-eq-ok _ e) in
      let same = rw (rebuilt_evidence-same requested.evidence j.specs justified.cited) at h₁ in
      (sym (ok-injective same), (j, justified))

  safe_actions-bounded :
      (requested actions : List CandidateAction)
      → safe_actions catalog failures requested ≡ ok actions
      → (actions ≡ map without_text requested) × All (IsJustifiedRequest catalog failures) requested
  unfolding safe_actions
  safe_actions-bounded [] actions h = (sym (ok-injective h), tt)
  safe_actions-bounded (requested ∷ rest) actions h =
      let (a, e, h₁) = >>=-eq-ok (safe_action catalog failures requested) _ h in
      let (others, f, h₂) = >>=-eq-ok (safe_actions catalog failures rest) _ h₁ in
      let (same, justified) = safe_action-bounded requested a e in
      let (same_rest, justified_rest) = safe_actions-bounded rest others f in
      let whole : a ∷ others ≡ map without_text (requested ∷ rest) = cc in
      (sym (ok-injective h₂) ∙ whole, (justified, justified_rest))

-- With a catalog that is keyed by identifier, a proposal that crosses keeps exactly the requests of
-- the original, in order and with their evidence, under a fixed rationale, and each of them is
-- justified by the check policy.
pub safe_proposal-bounded :
    (catalog : Catalog) (proposal_id : String) (report : QualitySuiteReport)
    (proposal safe : Proposal)
    → IsKeyed catalog
    → safe_proposal catalog proposal_id report proposal ≡ ok safe
    → (safe.candidate_actions ≡ map without_text proposal.candidate_actions)
      × All (IsJustifiedRequest catalog (failed_checks_by_id report)) proposal.candidate_actions
unfolding safe_proposal
safe_proposal-bounded catalog proposal_id report proposal safe keyed h =
    let failures = failed_checks_by_id report in
    let (actions, e, h₁) =
      >>=-eq-ok (safe_actions catalog failures proposal.candidate_actions) _ h in
    let (same, justified) =
      safe_actions-bounded catalog keyed failures proposal.candidate_actions actions e in
    (sym (ap (λ p. p.candidate_actions) (ok-injective h₁)) ∙ same, justified)
