-- ===== src/Evals/Plan.antt =====
-- evals/harness.py: the evaluation of a compiled plan.
pub mod Passed
pub mod Admissible
use airflow_dq_agent.Prelude.{
  String, Bool, true, false, not, ◌&&◌, List, [], ◌∷◌, map, Option, none, some, ◌==◌, select,
  is_empty, length, nat_eq, if◌then◌else◌,
}
use airflow_dq_agent.Errors.{Result, ok, err, Refusing, ◌>>=◌, ◌>>◌}
use airflow_dq_agent.Contracts.Value.{text, array}
use airflow_dq_agent.Contracts.Plan.{ExecutablePlanItem, RemediationPlan, executable_items}
use airflow_dq_agent.Contracts.Evaluation.{EvalScore, EvalReport}
use airflow_dq_agent.Environment.{Env}
use airflow_dq_agent.Planning.Payload.{evaluation_payload_fingerprint}
use airflow_dq_agent.Planning.Integrity.{verify_plan_integrity}
use airflow_dq_agent.Planning.Policy.{current_policy_fingerprint}
use airflow_dq_agent.Evals.Scores.{one, all_or_nothing, make_score, failed_scores}

-- A count is a number of zero or more, so only the fingerprint can be missing.
abbrev pub target_errors : RemediationPlan → List String
target_errors plan =
    map (λ item. item.item_id)
      (select (λ item. item.target_set.fingerprint == "") (executable_items plan.items))

abbrev pub compiled_whole : RemediationPlan → Bool
compiled_whole plan =
    not plan.blocked && nat_eq (length (executable_items plan.items)) (length plan.items)

unfoldable pub plan_scores : RemediationPlan → String → List EvalScore
plan_scores plan current =
    make_score "plan_compilation" (all_or_nothing (compiled_whole plan)) one
      (if compiled_whole plan
        then "Every failed check is covered by an executable controlled plan item."
        else "The remediation plan contains explicit blocked or omitted outcomes.")
      (("blocked_reasons", array (map text plan.blocked_reasons)) ∷ [])
    ∷ make_score "policy_snapshot" (all_or_nothing (current == plan.policy_fingerprint)) one
        (if current == plan.policy_fingerprint
          then "The compiled plan still matches the current check policy and renderer."
          else "Check policy, table contract, remediation rule, or renderer drifted after compilation.")
        []
    ∷ make_score "target_set_integrity" (all_or_nothing (is_empty (target_errors plan))) one
        (if is_empty (target_errors plan)
          then "Every executable item has an exact target-set count and fingerprint."
          else "An executable plan item has no valid target-set summary.")
        (("item_ids", array (map text (target_errors plan))) ∷ [])
    ∷ []

abbrev pub plan_report : Env → String → RemediationPlan → List EvalScore → EvalReport
plan_report env evaluation_id plan scores =
    let blocked = failed_scores scores in
    let passed = is_empty blocked in
    record {
      evaluation_id = evaluation_id;
      audit_event_id = none;
      plan_id = some plan.plan_id;
      plan_fingerprint = some plan.fingerprint;
      policy_fingerprint = none;
      target_count = none;
      target_set_fingerprint = none;
      fingerprint = some (
          evaluation_payload_fingerprint env evaluation_id (some plan.plan_id)
            (some plan.fingerprint) passed scores blocked);
      passed = passed;
      scores = scores;
      blocked_reasons = blocked;
      summary_markdown =
          if passed
          then "## Remediation plan evaluation\n\nPASS — eligible for whole-plan HITL."
          else "## Remediation plan evaluation\n\nBLOCKED — do not admit this plan.";
    }

unfoldable pub evaluate_plan : Env → String → RemediationPlan → Result EvalReport
evaluate_plan env evaluation_id plan = do
  verify_plan_integrity env Refusing.evaluation plan
  current ← current_policy_fingerprint env plan
  ok (plan_report env evaluation_id plan (plan_scores plan current))
