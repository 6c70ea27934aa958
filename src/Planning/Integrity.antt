-- ===== src/Planning/Integrity.antt =====
-- planning/integrity.py: recomputing the fingerprints of received artifacts, and re-deriving what a
-- plan's items may hold from the report and the check policy.
pub mod Verified
use airflow_dq_agent.Prelude.{
  String, ◌≡◌, Bool, true, false, not, ◌&&◌, ◌||◌, List, [], ◌∷◌, ◌++◌, map, Option, none, some,
  ◌==◌, ◌!=◌, Dict, get, keys, member, any, all, option_eq, Pair, pair_leb, pair_eq, sorted,
  list_eq,
}
use airflow_dq_agent.Errors.{
  Error, Result, ok, err, permission_error, Refusing, Reason, report_unfingerprinted,
  report_mismatch, plan_mismatch, evaluation_unfingerprinted, evaluation_mismatch,
  evaluation_foreign, decision_mismatch, admission_mismatch, admission_foreign, report_foreign,
  duplicate_action_and_evidence, policy_refused, params_mismatch, uncovered_failure, value_error,
  is_key_or_value_error, refuse_if, try_except, ◌>>=◌, ◌>>◌,
}
use airflow_dq_agent.Contracts.Value.{Params, params_eq}
use airflow_dq_agent.Contracts.Report.{CheckResult, QualitySuiteReport}
use airflow_dq_agent.Contracts.Plan.{
  QualityEvidence, ExecutablePlanItem, PlanItem, executable_items, freeze_params, RemediationPlan,
}
use airflow_dq_agent.Contracts.Evaluation.{EvalReport}
use airflow_dq_agent.Contracts.Decision.{HumanDecision, ApplyAdmission}
use airflow_dq_agent.Quality.Registry.{CheckSpec}
use airflow_dq_agent.CheckPolicy.{CheckPolicyJustification, failed_checks_by_id, justify_action}
use airflow_dq_agent.Environment.{Env, report_payload_fingerprint}
use airflow_dq_agent.Planning.Payload.{
  plan_payload_fingerprint, evaluation_payload_fingerprint, human_decision_fingerprint,
  admission_payload_fingerprint,
}

-- `if not fingerprint: raise`; an empty text counts as none.
abbrev pub present : Option String → Bool
present none = false
present (some s) = s != ""

abbrev pub require_present : Option String → Error → Result String
require_present none e = err e
require_present (some s) e = do refuse_if (s == "") e; ok s

unfoldable pub verify_report_integrity : Env → Refusing → QualitySuiteReport → Result (Unit {0})
verify_report_integrity env refusing report = do
  fingerprint ←
      require_present report.fingerprint (permission_error refusing report_unfingerprinted)
  refuse_if (report_payload_fingerprint env report != fingerprint)
      (permission_error refusing report_mismatch)

unfoldable pub plan_fingerprint : Env → RemediationPlan → String
plan_fingerprint env plan =
    plan_payload_fingerprint env plan.plan_id plan.quality_run_id plan.candidate_fingerprint
      plan.policy_fingerprint plan.warehouse_environment_id plan.items

unfoldable pub verify_plan_integrity : Env → Refusing → RemediationPlan → Result (Unit {0})
verify_plan_integrity env refusing plan =
    refuse_if (plan_fingerprint env plan != plan.fingerprint)
      (permission_error refusing plan_mismatch)

unfoldable pub evaluation_fingerprint : Env → EvalReport → String
evaluation_fingerprint env evaluation =
    evaluation_payload_fingerprint env evaluation.evaluation_id evaluation.plan_id
      evaluation.plan_fingerprint evaluation.passed evaluation.scores evaluation.blocked_reasons

unfoldable pub verify_evaluation_integrity :
    Env → Refusing → RemediationPlan → EvalReport → Result String
verify_evaluation_integrity env refusing plan evaluation = do
  fingerprint ←
      require_present evaluation.fingerprint (permission_error refusing evaluation_unfingerprinted)
  refuse_if (evaluation_fingerprint env evaluation != fingerprint)
      (permission_error refusing evaluation_mismatch)
  refuse_if
      (not (option_eq evaluation.plan_id (some plan.plan_id))
        || not (option_eq evaluation.plan_fingerprint (some plan.fingerprint)))
      (permission_error refusing evaluation_foreign)
  ok fingerprint

-- `decision.fingerprint and decision.fingerprint != expected`
abbrev pub conflicts : Option String → String → Bool
conflicts none expected = false
conflicts (some s) expected = s != "" && s != expected

unfoldable pub verify_decision_integrity :
    Env → Refusing → HumanDecision → Option String → Result (Unit {0})
verify_decision_integrity env refusing decision event_fingerprint =
    let expected = human_decision_fingerprint env decision in
    refuse_if
      (not (option_eq event_fingerprint (some expected)) || conflicts decision.fingerprint expected)
      (permission_error refusing decision_mismatch)

unfoldable pub verify_admission_integrity :
    Env → Refusing → RemediationPlan → EvalReport → ApplyAdmission → Result (Unit {0})
verify_admission_integrity env refusing plan evaluation admission = do
  refuse_if (admission_payload_fingerprint env admission != admission.fingerprint)
      (permission_error refusing admission_mismatch)
  refuse_if
      (admission.plan_id != plan.plan_id
        || (admission.plan_fingerprint != plan.fingerprint
            || (admission.quality_run_id != plan.quality_run_id
                || (admission.evaluation_id != evaluation.evaluation_id
                    || (not
                          (option_eq (some admission.evaluation_fingerprint) evaluation.fingerprint)
                        || admission.warehouse_environment_id != plan.warehouse_environment_id)))))
      (permission_error refusing admission_foreign)

-- `tuple(sorted((evidence.check_id, evidence.contract_id) for evidence in …))` beside the action.
abbrev pub Identity : Type 0
Identity = String × List Pair

abbrev pub evidence_pairs : List QualityEvidence → List Pair
evidence_pairs evidence = sorted pair_leb (map (λ e. (e.check_id, e.contract_id)) evidence)

abbrev pub identity_of : String → List QualityEvidence → Identity
identity_of action_id evidence = (action_id, evidence_pairs evidence)

abbrev pub identity_eq : Identity → Identity → Bool
identity_eq (a, xs) (b, ys) = a == b && list_eq pair_eq xs ys

-- One round of the loop over `zip(item.evidence, justification.specs, strict=True)`: the spec's
-- table and contract, and the table that the report names.
abbrev pub matches_table : Dict CheckResult → String → QualityEvidence → CheckSpec → Bool
matches_table failures table evidence spec =
    not (spec.table != table)
    && (not (spec.contract_id != evidence.contract_id) && elim (get evidence.check_id failures) [
      | none ↦ false
      | some failed ↦ not (failed.table != table)
    ])

abbrev pub all_match : Dict CheckResult → String → List QualityEvidence → List CheckSpec → Bool
all_match failures table [] [] = true
all_match failures table [] (spec ∷ specs) = false
all_match failures table (e ∷ evidence) [] = false
all_match failures table (e ∷ evidence) (spec ∷ specs) =
    matches_table failures table e spec && all_match failures table evidence specs

-- `except (KeyError, ValueError) as exc: raise PermissionError(…)`
abbrev pub permit_or_refuse {ℓ} : {A : Type ℓ} → Refusing → Result A → Result A
permit_or_refuse refusing m = try_except m λ e. elim (is_key_or_value_error e) [
  | true ↦ err (permission_error refusing policy_refused)
  | false ↦ err e
]

unfoldable pub rederive : Env → Dict CheckResult → ExecutablePlanItem → Result Params
rederive env failures item = do
  justification ← justify_action env.catalog item.action_id item.evidence failures
  refuse_if (not (all_match failures item.table item.evidence justification.specs))
      (value_error "evidence does not match the contracted table")
  ok justification.params

-- The loop over the executable items: the checks that they cover.
unfoldable pub covered_by :
    Env
    → Refusing
    → Dict CheckResult
    → List Identity
    → List ExecutablePlanItem
    → Result (List String)
covered_by env refusing failures seen [] = ok []
covered_by env refusing failures seen (item ∷ items) = do
  let identity = identity_of item.action_id item.evidence
  refuse_if (any (identity_eq identity) seen)
      (permission_error refusing duplicate_action_and_evidence)
  derived ← permit_or_refuse refusing (rederive env failures item)
  refuse_if (not (params_eq (freeze_params derived) item.params))
      (permission_error refusing params_mismatch)
  covered ← covered_by env refusing failures (identity ∷ seen) items
  ok (map (λ e. e.check_id) item.evidence ++ covered)

-- `covered == set(report_failures)`
abbrev pub same_set : List String → List String → Bool
same_set xs ys = all (λ x. member x ys) xs && all (λ y. member y xs) ys

unfoldable pub verify_executable_params :
    Env → Refusing → RemediationPlan → QualitySuiteReport → Result (Unit {0})
verify_executable_params env refusing plan report = do
  refuse_if (report.run_id != plan.quality_run_id) (permission_error refusing report_foreign)
  let failures = failed_checks_by_id report
  covered ← covered_by env refusing failures [] (executable_items plan.items)
  refuse_if (not plan.blocked && not (same_set covered (keys failures)))
      (permission_error refusing uncovered_failure)
