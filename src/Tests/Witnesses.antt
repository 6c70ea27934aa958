-- ===== src/Tests/Witnesses.antt =====
-- The theorems on planning and evaluation, applied to the sample run.
use airflow_dq_agent.Prelude.{
  String, ◌≡◌, ◌↔◌, refl, true, false, List, [], ◌∷◌, none, some, has_key, last_segment, strip,
  any_space, in_upper,
}
use airflow_dq_agent.Errors.{ok, Refusing}
use airflow_dq_agent.Contracts.Value.{text}
use airflow_dq_agent.Contracts.Tables.{get_table_contract, has_column}
use airflow_dq_agent.Contracts.Report.{CheckStatus, QualitySuiteReport, incomplete}
use airflow_dq_agent.Contracts.Remediations.{validate_common_params}
use airflow_dq_agent.Contracts.Plan.{
  QualityEvidence, Proposal, RemediationPlan, executable_items, block_reasons,
}
use airflow_dq_agent.Contracts.Evaluation.{EvalReport}
use airflow_dq_agent.Quality.Registry.{rule_for, get_check_spec}
use airflow_dq_agent.Actions.{validate_params, derive_params}
use airflow_dq_agent.Actions.Derive.{derive_nulls, derive_no_op, require_column, single_pk}
use airflow_dq_agent.Actions.Validate.{validate_primary_key, validate_no_additional_rules}
use airflow_dq_agent.Actions.Registered.{governed_actions, get_governed_action, is_governed_action}
use airflow_dq_agent.CheckPolicy.{
  CheckPolicyJustification, failed_checks_by_id, cited_specs, consistent, justify_action,
}
use airflow_dq_agent.CheckPolicy.Justified.{IsJustified}
use airflow_dq_agent.CheckPolicy.Complete.{justify_action_iff}
use airflow_dq_agent.Planning.Integrity.{
  verify_plan_integrity, evaluation_fingerprint, verify_evaluation_integrity,
  verify_admission_integrity,
}
use airflow_dq_agent.Planning.Integrity.Verified.{verified_admissions_agree}
use airflow_dq_agent.Planning.Policy.{current_policy_fingerprint}
use airflow_dq_agent.Planning.Compiler.{compile_remediation_plan}
use airflow_dq_agent.Planning.Compiler.Authorized.{
  AllAuthorized, compile_remediation_plan-Authorized,
}
use airflow_dq_agent.Planning.Compiler.Covered.{
  mentions, remedies, compile_remediation_plan-mentions,
}
use airflow_dq_agent.Planning.Compiler.Unblocked.{
  compile_remediation_plan-remedies, compile_remediation_plan-incomplete,
}
use airflow_dq_agent.Planning.Compiler.Current.{
  compile_remediation_plan-current, compile_remediation_plan-verified,
}
use airflow_dq_agent.Planning.Admission.Conflicts.{
  Fresh, cited_checks, mutated_tables, refuse_conflicting_plan_items-Fresh,
}
use airflow_dq_agent.Planning.Admission.Approved.{
  IsDurablyApproved, verify_durable_approval-IsDurablyApproved,
}
use airflow_dq_agent.Planning.Admission.Authorized.{
  IsAuthorized, create_apply_admission-IsAuthorized, create_apply_admission-verified,
}
use airflow_dq_agent.Evals.Scores.{failed_scores}
use airflow_dq_agent.Evals.Plan.{evaluate_plan}
use airflow_dq_agent.Evals.Plan.Passed.{IsSound, evaluate_plan-passed_iff}
use airflow_dq_agent.Evals.Plan.Admissible.{evaluate_plan-verified, evaluate_plan-fresh}
use airflow_dq_agent.Evals.Candidate.{
  valid, evaluate_proposal, citation_score, evidence_score, is_slug, grounding_errors,
  groundedness_score, is_destructive, destructive_score, allowlist_score, illegal_actions,
  covered_checks, omitted_checks, check_policy_score,
}
use airflow_dq_agent.Evals.Candidate.Passed.{IsEligible, evaluate_proposal-IsEligible}
use airflow_dq_agent.Tests.Store.{resolver, resolves}
use airflow_dq_agent.Tests.Samples.{env, at, catalog, amount_spec, report_of, result, proposal}
use airflow_dq_agent.Tests.Runs.{
  evaluated, report, plan, evaluation, decision, lookup, admission, ttl,
}
use airflow_dq_agent.Tests.Stages.{succeeds, report-ReportMatches, filled}
use airflow_dq_agent.Planning.Integrity.{verify_executable_params}
use airflow_dq_agent.Planning.Compiler.Accepted.{compile_remediation_plan-accepted}

create_apply_admission-IsAuthorized_example :
    IsAuthorized env "admission-1"
      (at 120)
      plan
      evaluation
      decision
      report
      ttl
      (some lookup)
      admission
create_apply_admission-IsAuthorized_example =
    create_apply_admission-IsAuthorized env "admission-1" (at 120) plan evaluation decision report
      ttl (some lookup) admission succeeds.admits

create_apply_admission-verified_example :
    verify_admission_integrity env Refusing.apply plan evaluation admission ≡ ok tt
create_apply_admission-verified_example =
    create_apply_admission-verified env "admission-1" (at 120) plan evaluation decision report ttl
      (some lookup) admission Refusing.apply succeeds.admits

authorized :
    IsAuthorized env "admission-1"
      (at 120)
      plan
      evaluation
      decision
      report
      ttl
      (some lookup)
      admission
authorized =
    create_apply_admission-IsAuthorized env "admission-1" (at 120) plan evaluation decision report
      ttl (some lookup) admission succeeds.admits

compile_remediation_plan-Authorized_example :
    AllAuthorized env resolver report (failed_checks_by_id report) plan.items
compile_remediation_plan-Authorized_example =
    compile_remediation_plan-Authorized env resolver none "plan-1" (at 20) report proposal plan
      succeeds.plans

compile_remediation_plan-remedies_example :
    (incomplete report ≡ false)
    × (block_reasons plan.items ≡ [])
    × ((k : String)
        → has_key k (failed_checks_by_id report) ≡ true
        → remedies k (executable_items plan.items) ≡ true)
compile_remediation_plan-remedies_example =
    compile_remediation_plan-remedies env resolver none "plan-1" (at 20) report proposal plan
      succeeds.plans authorized.unblocked

report_complete : incomplete report ≡ false
unfolding incomplete
report_complete = refl

amount-failed : has_key "invoice.amount" (failed_checks_by_id report) ≡ true
unfolding failed_checks_by_id
amount-failed = refl

compile_remediation_plan-mentions_example : mentions "invoice.amount" plan.items ≡ true
compile_remediation_plan-mentions_example =
    compile_remediation_plan-mentions env resolver none "plan-1" (at 20) report proposal plan
      "invoice.amount" succeeds.plans report_complete amount-failed

abbrev partial : QualitySuiteReport
partial = report_of none (result "invoice.amount" CheckStatus.error ∷ [])

partial-incomplete : incomplete partial ≡ true
unfolding incomplete
partial-incomplete = refl

compile_remediation_plan-incomplete_example :
    (p : RemediationPlan) × (compile_remediation_plan env resolver none "plan-2"
        (at 20)
        partial
        proposal
      ≡ ok p)
    × (p.blocked ≡ true)
    × (executable_items p.items ≡ [])
compile_remediation_plan-incomplete_example =
    compile_remediation_plan-incomplete env resolver none "plan-2" (at 20) partial proposal
      partial-incomplete

compile_remediation_plan-current_example :
    current_policy_fingerprint env plan ≡ ok plan.policy_fingerprint
compile_remediation_plan-current_example =
    compile_remediation_plan-current env resolver none "plan-1" (at 20) report proposal plan
      succeeds.plans

compile_remediation_plan-verified_example : verify_plan_integrity env Refusing.apply plan ≡ ok tt
compile_remediation_plan-verified_example =
    compile_remediation_plan-verified env resolver none "plan-1" (at 20) report proposal plan
      Refusing.apply succeeds.plans

passes : verify_admission_integrity env Refusing.apply plan evaluation admission ≡ ok tt
passes =
    create_apply_admission-verified env "admission-1" (at 120) plan evaluation decision report ttl
      (some lookup) admission Refusing.apply succeeds.admits

verified_admissions_agree_example : admission ≡ admission
verified_admissions_agree_example =
    verified_admissions_agree env Refusing.apply plan evaluation admission admission (λ _. refl)
      passes passes refl

verify_durable_approval-IsDurablyApproved_example :
    IsDurablyApproved env plan evaluation decision ttl (some lookup) "event-5"
verify_durable_approval-IsDurablyApproved_example =
    verify_durable_approval-IsDurablyApproved env plan evaluation decision ttl (some lookup)
      "event-5" succeeds.approves

refuse_conflicting_plan_items-Fresh_example :
    Fresh [] (cited_checks (executable_items plan.items))
    × Fresh [] (mutated_tables (executable_items plan.items))
refuse_conflicting_plan_items-Fresh_example =
    refuse_conflicting_plan_items-Fresh plan authorized.no_conflict

evaluate_plan-passed_iff_example : (evaluated.passed ≡ true) ↔ IsSound env plan
evaluate_plan-passed_iff_example =
    evaluate_plan-passed_iff env "evaluation-1" plan evaluated succeeds.evaluates

evaluate_plan-verified_example :
    verify_evaluation_integrity env Refusing.admission plan evaluated
    ≡ ok (evaluation_fingerprint env evaluated)
evaluate_plan-verified_example =
    evaluate_plan-verified env "evaluation-1" plan evaluated Refusing.admission filled
      succeeds.evaluates

evaluate_plan-fresh_example :
    (e : EvalReport) × (evaluate_plan env "evaluation-2" plan ≡ ok e) × (e.passed ≡ true)
evaluate_plan-fresh_example =
    evaluate_plan-fresh env resolver none "plan-1" (at 20) report proposal plan "evaluation-2"
      resolves succeeds.plans authorized.unblocked

proposal-passes : (evaluate_proposal env "evaluation-0" report (valid proposal)).passed ≡ true
unfolding evaluate_proposal citation_score evidence_score is_slug grounding_errors
    groundedness_score is_destructive destructive_score allowlist_score illegal_actions
    covered_checks omitted_checks check_policy_score failed_scores incomplete failed_checks_by_id
    justify_action cited_specs get_check_spec consistent derive_params rule_for get_table_contract
    get_governed_action governed_actions is_governed_action derive_nulls derive_no_op require_column
    single_pk validate_params validate_common_params has_column validate_primary_key
    validate_no_additional_rules last_segment strip any_space in_upper
proposal-passes = refl

evaluate_proposal-IsEligible_example :
    (p : Proposal) × (valid proposal ≡ valid p) × IsEligible env.catalog report p
evaluate_proposal-IsEligible_example =
    evaluate_proposal-IsEligible env "evaluation-0" report (valid proposal) proposal-passes

abbrev evidence : List QualityEvidence
evidence = record { check_id = "invoice.amount"; contract_id = "warehouse.invoice" } ∷ []

abbrev justification : CheckPolicyJustification
justification = record {
  specs = amount_spec ∷ [];
  params = ("column", text "amount") ∷ ("pk_column", text "invoice_id") ∷ [];
}

justify_action_iff_example :
    (justify_action catalog "quarantine_nulls" evidence (failed_checks_by_id report)
      ≡ ok justification)
    ↔ IsJustified catalog "quarantine_nulls" evidence (failed_checks_by_id report) justification
justify_action_iff_example =
    justify_action_iff catalog "quarantine_nulls" evidence (failed_checks_by_id report)
      justification

compile_remediation_plan-accepted_example :
    verify_executable_params env Refusing.apply plan report ≡ ok tt
compile_remediation_plan-accepted_example =
    compile_remediation_plan-accepted env resolver none "plan-1" (at 20) report proposal plan
      Refusing.apply report-ReportMatches succeeds.reflexive succeeds.plans
