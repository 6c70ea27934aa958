-- ===== src/Agent/Sanitize/Independent.antt =====
-- agent/sanitize.py: what the payload depends on.
use airflow_dq_agent.Prelude.{String, ◌≡◌, refl, ap, List, [], ◌∷◌, map, Dict}
use airflow_dq_agent.Contracts.Report.{CheckResult, QualitySuiteReport}
use airflow_dq_agent.Contracts.Plan.{QualityEvidence, CandidateAction, Proposal}
use airflow_dq_agent.Quality.Registry.{Catalog}
use airflow_dq_agent.CheckPolicy.{failed_checks_by_id}
use airflow_dq_agent.Agent.Sanitize.{
  safe_action, safe_actions, safe_proposal, safe_proposal_for_xcom,
}

-- What an action requests: its identifier and its evidence, without the rationale.
abbrev pub request : CandidateAction → String × List QualityEvidence
request action = (action.action_id, action.evidence)

abbrev pub requests_of : Proposal → List (String × List QualityEvidence)
requests_of proposal = map request proposal.candidate_actions

safe_action-request :
    (catalog : Catalog) (failures : Dict CheckResult) (a b : CandidateAction)
    → request a ≡ request b
    → safe_action catalog failures a ≡ safe_action catalog failures b
unfolding safe_action
safe_action-request catalog failures a b h = rw (ap (λ r. r.0) h, ap (λ r. r.1) h) refl

safe_actions-requests :
    (catalog : Catalog) (failures : Dict CheckResult) (xs ys : List CandidateAction)
    → map request xs ≡ map request ys
    → safe_actions catalog failures xs ≡ safe_actions catalog failures ys
unfolding safe_actions
safe_actions-requests catalog failures [] [] h = refl
safe_actions-requests catalog failures [] (y ∷ ys) h = cc
safe_actions-requests catalog failures (x ∷ xs) [] h = cc
safe_actions-requests catalog failures (x ∷ xs) (y ∷ ys) h =
    rw
      (
        safe_action-request catalog failures x y (cc),
        safe_actions-requests catalog failures xs ys (cc),
      )
      refl

-- Two proposals that request the same actions on the same evidence, whatever text the model wrote in
-- them, give the same payload, or are refused alike.
pub safe_proposal_for_xcom-independent :
    (catalog : Catalog) (proposal_id : String) (report : QualitySuiteReport) (p q : Proposal)
    → requests_of p ≡ requests_of q
    → safe_proposal_for_xcom catalog proposal_id report p
      ≡ safe_proposal_for_xcom catalog proposal_id report q
unfolding safe_proposal_for_xcom safe_proposal
safe_proposal_for_xcom-independent catalog proposal_id report p q h =
    rw
      (safe_actions-requests catalog (failed_checks_by_id report) p.candidate_actions
        q.candidate_actions h)
      refl
