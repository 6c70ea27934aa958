-- ===== src/Planning/Compiler.antt =====
-- planning/compiler.py: an untrusted candidate proposal becomes a plan of executable and blocked
-- items. The resolver of target sets is the program's own seam to the warehouse, and a parameter.
mod Items
pub mod Authorized
pub mod Covered
pub mod Distinct
pub mod Rederived
pub mod Accepted
pub mod Current
pub mod Unblocked
unfoldable pub use Items.*
use airflow_dq_agent.Prelude.{
  ℕ, zero, suc, ◌+◌, String, Bool, true, false, not, ◌&&◌, ◌||◌, List, [], ◌∷◌, ◌++◌, map, Option,
  none, some, ◌!=◌, Dict, get, has_key, member, any, select, is_empty, ltb, decimal, if◌then◌else◌,
  length,
}
use airflow_dq_agent.Errors.{
  Error, Result, ok, err, key_error, value_error, policy_refusal, database_error,
  is_key_or_value_error, refuse_if, try_except, ◌>>=◌, ◌>>◌,
}
use airflow_dq_agent.Contracts.Value.{
  Value, Params, text, text?, float, pos, array, object, Datetime,
}
use airflow_dq_agent.Contracts.Report.{CheckResult, QualitySuiteReport, incomplete}
use airflow_dq_agent.Contracts.Plan.{
  QualityEvidence, CandidateAction, Proposal, TargetSet, ExecutablePlanItem, NonExecutablePlanItem,
  PlanItem, executable, non_executable, executable_items, block_reasons, freeze_params,
  RemediationPlan,
}
use airflow_dq_agent.Quality.Registry.{CheckSpec}
use airflow_dq_agent.CheckPolicy.{
  CheckPolicyJustification, failed_checks_by_id, justify_action, unavailable,
}
use airflow_dq_agent.Environment.{Env}
use airflow_dq_agent.Planning.Payload.{evidence_value, plan_payload_fingerprint}
use airflow_dq_agent.Planning.Policy.{policy_fingerprint}
use airflow_dq_agent.Planning.Integrity.{Identity, identity_of, identity_eq}
use Prim.Native.String.{◌++◌ as ◌<>◌}

module _ (env : Env) (resolver : TargetSetResolver) (report : QualitySuiteReport) where
  -- The body of the `try`: the executable item of one requested action.
  unfoldable pub authorize : Dict CheckResult → ℕ → CandidateAction → Result ExecutablePlanItem
  authorize failures index requested = do
    j ← justify_action env.catalog requested.action_id requested.evidence failures
    first ← first_spec j.specs
    refuse_if (any (λ spec. spec.table != first.table) j.specs)
        (value_error "one plan item cannot target more than one contracted table")
    target_set ←
        resolved_or_refuse
          (resolver.resolve report.run_id first.check_id requested.action_id first.table j.params)
    fingerprint ← policy_fingerprint env j.specs requested.action_id
    ok (record {
      item_id = item_name index;
      action_id = requested.action_id;
      table = first.table;
      params = freeze_params j.params;
      evidence = requested.evidence;
      target_set = target_set;
      policy_fingerprint = fingerprint;
    })

  -- The plan item of one requested action, and the checks that it covers.
  unfoldable pub compile_action :
      Dict CheckResult
      → List CandidateAction
      → ℕ
      → CandidateAction
      → Result (PlanItem × List String)
  unfolding authorize
  compile_action failures actions index requested =
      if is_duplicate actions requested
      then ok (
        blocked_item index requested.evidence duplicate_reason,
        cited_failures failures requested.evidence,
      )
      else item_or_blocked failures index requested (authorize failures index requested)

  unfoldable pub compile_actions :
      Dict CheckResult
      → List CandidateAction
      → ℕ
      → List CandidateAction
      → Result (List PlanItem × List String)
  unfolding compile_action
  compile_actions failures actions index [] = ok ([], [])
  compile_actions failures actions index (requested ∷ rest) = do
    (item, covers) ← compile_action failures actions index requested
    (items, covered) ← compile_actions failures actions (suc index) rest
    ok (item ∷ items, covers ++ covered)

abbrev pub incomplete_reason : String
incomplete_reason = "quality suite is incomplete"

-- With an incomplete report no action is authorized.
unfoldable pub block_all : ℕ → List CandidateAction → List PlanItem
block_all index [] = []
block_all index (requested ∷ rest) =
    let others = block_all (suc index) rest in
    if is_empty requested.evidence
    then others
    else blocked_item index requested.evidence incomplete_reason ∷ others

-- The failed checks that no item covers.
unfoldable pub omitted_failures : Dict CheckResult → List String → List QualityEvidence
omitted_failures [] covered = []
omitted_failures ((check_id, failed) ∷ failures) covered =
    let others = omitted_failures failures covered in
    if member check_id covered
    then others
    else record { check_id = check_id; contract_id = failed.contract_id } ∷ others

abbrev pub omission_item : List QualityEvidence → List PlanItem
omission_item [] = []
omission_item (e ∷ omitted) =
    non_executable (record {
      item_id = "omitted-failures";
      evidence = e ∷ omitted;
      reason = "candidate proposal omitted failed-check coverage";
    })
    ∷ []

unfoldable pub compile_items :
    Env → TargetSetResolver → QualitySuiteReport → List CandidateAction → Result (List PlanItem)
unfolding compile_actions
compile_items env resolver report actions =
    let failures = failed_checks_by_id report in
    if incomplete report then ok (block_all 0 actions) else (do
      (items, covered) ← compile_actions env resolver report failures actions 0 actions
      ok (items ++ omission_item (omitted_failures failures covered)))

abbrev pub incompleteness : QualitySuiteReport → List String
incompleteness report = if incomplete report then incomplete_reason ∷ [] else []

abbrev candidate_value : CandidateAction → Value
candidate_value action = object (
    ("action_id", text action.action_id)
    ∷ ("evidence", array (map evidence_value action.evidence))
    ∷ ("rationale", text action.rationale)
    ∷ [])

-- `proposal.model_dump(mode="json")`
unfoldable pub proposal_value : Proposal → Value
proposal_value proposal = object (
    ("proposal_id", text proposal.proposal_id)
    ∷ ("fingerprint", text? proposal.fingerprint)
    ∷ ("summary", text proposal.summary)
    ∷ ("root_cause_hypothesis", text proposal.root_cause_hypothesis)
    ∷ ("candidate_actions", array (map candidate_value proposal.candidate_actions))
    ∷ ("do_not_apply_reasons", array (map text proposal.do_not_apply_reasons))
    ∷ ("confidence", float (pos proposal.confidence.0) proposal.confidence.1)
    ∷ [])

abbrev pub inferred_environment : Env → Option String → String
inferred_environment env none = env.settings.warehouse_environment_id
inferred_environment env (some inferred) =
    if inferred != "" then inferred else env.settings.warehouse_environment_id

abbrev pub bound_environment : Env → TargetSetResolver → Option String → String
bound_environment env resolver none = inferred_environment env resolver.warehouse_environment_id
bound_environment env resolver (some given) = given

-- `plan_id` is the fresh `uuid4().hex`, and `compiled_at` the clock's reading.
abbrev pub assemble_plan :
    Env
    → TargetSetResolver
    → Option String
    → String
    → Datetime
    → QualitySuiteReport
    → Proposal
    → List PlanItem
    → RemediationPlan
assemble_plan env resolver environment plan_id compiled_at report candidate items =
    let reasons = block_reasons items ++ incompleteness report in
    let policy =
      env.canonical_fingerprint
        (array (map (λ item. text item.policy_fingerprint) (executable_items items))) in
    let proposal = env.canonical_fingerprint (proposal_value candidate) in
    let bound = bound_environment env resolver environment in
    record {
      plan_id = plan_id;
      quality_run_id = report.run_id;
      candidate_fingerprint = proposal;
      policy_fingerprint = policy;
      items = items;
      blocked = not (is_empty reasons);
      blocked_reasons = reasons;
      warehouse_environment_id = bound;
      fingerprint = plan_payload_fingerprint env plan_id report.run_id proposal policy bound items;
      compiled_at = compiled_at;
    }

unfoldable pub compile_remediation_plan :
    Env
    → TargetSetResolver
    → Option String
    → String
    → Datetime
    → QualitySuiteReport
    → Proposal
    → Result RemediationPlan
unfolding compile_items
compile_remediation_plan env resolver environment plan_id compiled_at report candidate = do
  items ← compile_items env resolver report candidate.candidate_actions
  ok (assemble_plan env resolver environment plan_id compiled_at report candidate items)
