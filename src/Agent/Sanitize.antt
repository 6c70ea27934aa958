-- ===== src/Agent/Sanitize.antt =====
-- agent/sanitize.py: a candidate proposal is rebuilt from reviewed identifiers before it crosses XCom.
pub mod Bounded
pub mod Independent
use airflow_dq_agent.Prelude.{
  String, Bool, true, false, List, [], ◌∷◌, none, Dict, get, length, decimal,
}
use airflow_dq_agent.Errors.{
  Error, Result, ok, err, policy_refusal, permission_error, Refusing, unbounded_proposal,
  try_except, ◌>>=◌,
}
use airflow_dq_agent.Contracts.Value.{Value}
use airflow_dq_agent.Contracts.Tables.{or_key_error}
use airflow_dq_agent.Contracts.Report.{CheckResult, QualitySuiteReport}
use airflow_dq_agent.Contracts.Plan.{QualityEvidence, CandidateAction, Proposal}
use airflow_dq_agent.Quality.Registry.{CheckSpec, Catalog}
use airflow_dq_agent.CheckPolicy.{failed_checks_by_id, justify_action}
use airflow_dq_agent.Planning.Compiler.{proposal_value}
use Prim.Native.String.{◌++◌ as ◌<>◌}

abbrev is_policy_refusal : Error → Bool
is_policy_refusal (policy_refusal _ _) = true
is_policy_refusal _ = false

-- `except PolicyRefusal as exc: raise PermissionError(…)`
abbrev pub bounded_or_refuse {ℓ} : {A : Type ℓ} → Result A → Result A
bounded_or_refuse m = try_except m λ e. elim (is_policy_refusal e) [
  | true ↦ err (permission_error Refusing.xcom unbounded_proposal)
  | false ↦ err e
]

-- The evidence that the registries and the report give for the cited checks.
unfoldable pub rebuilt_evidence : Dict CheckResult → List CheckSpec → Result (List QualityEvidence)
rebuilt_evidence report_failures [] = ok []
rebuilt_evidence report_failures (spec ∷ specs) = do
  failed ← or_key_error spec.check_id (get spec.check_id report_failures)
  evidence ← rebuilt_evidence report_failures specs
  ok (record { check_id = spec.check_id; contract_id = failed.contract_id } ∷ evidence)

abbrev pub safe_rationale : String
safe_rationale = "Requested for the cited Quality Evidence."

unfoldable pub safe_action : Catalog → Dict CheckResult → CandidateAction → Result CandidateAction
safe_action catalog report_failures requested = do
  justification ←
      bounded_or_refuse
        (justify_action catalog requested.action_id requested.evidence report_failures)
  evidence ← rebuilt_evidence report_failures justification.specs
  ok (record { action_id = requested.action_id; evidence = evidence; rationale = safe_rationale })

unfoldable pub safe_actions :
    Catalog → Dict CheckResult → List CandidateAction → Result (List CandidateAction)
safe_actions catalog report_failures [] = ok []
safe_actions catalog report_failures (requested ∷ rest) = do
  action ← safe_action catalog report_failures requested
  actions ← safe_actions catalog report_failures rest
  ok (action ∷ actions)

-- `proposal_id` is the fresh `uuid4().hex` of the new proposal.
unfoldable pub safe_proposal : Catalog → String → QualitySuiteReport → Proposal → Result Proposal
safe_proposal catalog proposal_id report proposal = do
  actions ← safe_actions catalog (failed_checks_by_id report) proposal.candidate_actions
  ok (record {
    proposal_id = proposal_id;
    fingerprint = none;
    summary =
        "Candidate Proposal contains "
        <> (decimal (length actions) <> " governed action request(s).");
    root_cause_hypothesis = "Model-authored narrative is not retained in durable task data.";
    candidate_actions = actions;
    do_not_apply_reasons = "Deterministic evaluation and policy compilation are required." ∷ [];
    confidence = (0, 1);
  })

unfoldable pub safe_proposal_for_xcom :
    Catalog → String → QualitySuiteReport → Proposal → Result Value
safe_proposal_for_xcom catalog proposal_id report proposal = do
  safe ← safe_proposal catalog proposal_id report proposal
  ok (proposal_value safe)
