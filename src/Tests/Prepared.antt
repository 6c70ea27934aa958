-- ===== src/Tests/Prepared.antt =====
-- A review is prepared from the sample report and proposal.
use airflow_dq_agent.Prelude.{
  ◌≡◌, refl, List, [], some, decimal, decimal_digits, digit, last_segment,
}
use airflow_dq_agent.Prelude.{strip, lstrip, rstrip}
use airflow_dq_agent.Contracts.Value.{params_eq, value_eq}
use airflow_dq_agent.Contracts.Tables.{get_table_contract, has_column}
use airflow_dq_agent.Contracts.Report.{incomplete}
use airflow_dq_agent.Contracts.Remediations.{validate_common_params}
use airflow_dq_agent.Quality.Registry.{rule_for, get_check_spec}
use airflow_dq_agent.Actions.{validate_params, derive_params}
use airflow_dq_agent.Actions.Derive.{derive_nulls, derive_no_op, single_pk}
use airflow_dq_agent.Actions.Validate.{validate_primary_key, validate_no_additional_rules}
use airflow_dq_agent.Actions.Registered.{governed_actions, get_governed_action}
use airflow_dq_agent.CheckPolicy.{failed_checks_by_id, cited_specs, consistent, justify_action}
use airflow_dq_agent.Environment.{report_payload_fingerprint}
use airflow_dq_agent.Planning.Payload.{
  plan_payload, plan_payload_fingerprint, evaluation_payload, evaluation_payload_fingerprint,
  decision_payload, human_decision_fingerprint, admission_payload, admission_payload_fingerprint,
}
use airflow_dq_agent.Planning.Integrity.{
  verify_report_integrity, plan_fingerprint, verify_plan_integrity, evaluation_fingerprint,
  verify_evaluation_integrity, verify_decision_integrity, rederive, covered_by,
  verify_executable_params,
}
use airflow_dq_agent.Planning.Policy.{
  contract_value, spec_value, action_value, policy_fingerprint, item_policy_fingerprint,
  current_policy_fingerprint,
}
use airflow_dq_agent.Planning.Compiler.{
  is_duplicate, authorize, compile_action, compile_actions, omitted_failures, compile_items,
  proposal_value, compile_remediation_plan,
}
use airflow_dq_agent.Planning.Review.{
  review_item, review_payload, review_value, build_approval_review,
}
use airflow_dq_agent.Planning.Admission.{
  approval_event, verify_approval_event, verify_reviewed, verify_durable_approval, add_evidence,
  refuse_conflicts, refuse_conflicting_plan_items, create_apply_admission,
}
use airflow_dq_agent.Evals.Scores.{failed_scores}
use airflow_dq_agent.Evals.Plan.{plan_scores, evaluate_plan}
use airflow_dq_agent.Traces.Payload.{event_value}
use airflow_dq_agent.Traces.Lineage.{review_event, decision_event}
use airflow_dq_agent.Hitl.{validate_human_decision, prepare_decision, record_human_decision}
use airflow_dq_agent.Tests.Samples.{size}
use airflow_dq_agent.Actions.{render_action}
use airflow_dq_agent.Actions.Render.{
  render_nulls, render_no_op, quarantine_step, quarantine_queries,
}
use airflow_dq_agent.Planning.Targets.{resolve, select_targets, fingerprint_target_rows}
use airflow_dq_agent.Errors.{Result, ok}
use airflow_dq_agent.Contracts.Report.{QualitySuiteReport}
use airflow_dq_agent.Contracts.Decision.{AuditEvent}
use airflow_dq_agent.Planning.Body.{render_approval_review_body}
use airflow_dq_agent.Planning.Preparation.{
  PreparationDraw, PreparedReview, Dumps, prepared, prepare_plan_review, IsPrepared,
  prepare_plan_review-IsPrepared,
}
use airflow_dq_agent.Actions.Derive.{require_column}
use airflow_dq_agent.Contracts.Value.{text, text?, list, cons, nil}
use airflow_dq_agent.Tests.Runs.{plan, evaluation, review, stamp, persist, ttl}
use airflow_dq_agent.Tests.Runs
use airflow_dq_agent.Tests.Samples.{env, at, proposal, value_or}
use airflow_dq_agent.Tests.Store.{resolver}
use airflow_dq_agent.Traces.Lineage.{plan_event, evaluation_event}

-- The report, on the audit trail.
abbrev report : QualitySuiteReport
report = record Runs.report { audit_event_id = some "event-1" }

abbrev draw : PreparationDraw
draw = record {
  plan_id = "plan-1";
  compiled_at = at 20;
  evaluation_id = "evaluation-1";
  compiled = stamp "event-2" 25;
  evaluated = stamp "event-3" 30;
  reviewed = stamp "event-4" 40;
}

-- The identifiers, and of the evaluation that of its event too.
abbrev dumps : Dumps
dumps = record {
  plan = λ p. text p.plan_id;
  evaluation = λ e. list (cons (text e.evaluation_id) (cons (text? e.audit_event_id) nil));
  approval_review = λ r. text r.fingerprint;
}

abbrev ran : Result PreparedReview × List AuditEvent
ran =
    prepare_plan_review env dumps resolver persist draw report proposal evaluation "event-c" ttl []

abbrev result : PreparedReview
result =
    value_or
      (prepared env dumps resolver persist draw report proposal evaluation "event-c" ttl plan
        evaluation review)
      ran.0

prepares : ran ≡ (ok result, ran.1)
unfolding compile_remediation_plan compile_items compile_actions compile_action authorize
    is_duplicate omitted_failures failed_checks_by_id incomplete justify_action cited_specs
    get_check_spec consistent derive_params rule_for get_table_contract get_governed_action
    governed_actions derive_nulls derive_no_op require_column single_pk validate_params
    validate_common_params has_column validate_primary_key validate_no_additional_rules
    policy_fingerprint plan_payload plan_payload_fingerprint decimal decimal_digits digit
    last_segment params_eq value_eq contract_value spec_value action_value proposal_value size
    evaluate_plan verify_plan_integrity plan_fingerprint current_policy_fingerprint
    item_policy_fingerprint plan_scores evaluation_payload evaluation_payload_fingerprint
    failed_scores report_payload_fingerprint review_item review_payload review_value
    build_approval_review verify_report_integrity verify_evaluation_integrity evaluation_fingerprint
    verify_decision_integrity rederive covered_by verify_executable_params approval_event
    verify_approval_event verify_reviewed verify_durable_approval add_evidence refuse_conflicts
    refuse_conflicting_plan_items create_apply_admission review_event decision_event event_value
    decision_payload human_decision_fingerprint admission_payload admission_payload_fingerprint
    validate_human_decision prepare_decision record_human_decision strip lstrip rstrip resolve
    select_targets fingerprint_target_rows render_action render_nulls render_no_op quarantine_step
    quarantine_queries prepare_plan_review plan_event evaluation_event render_approval_review_body
prepares = refl

prepare_plan_review-IsPrepared_example :
    IsPrepared env dumps resolver persist draw report proposal evaluation "event-c" ttl [] ran.1
      result
prepare_plan_review-IsPrepared_example =
    prepare_plan_review-IsPrepared env dumps resolver persist draw report proposal evaluation
      "event-c" ttl [] ran.1 result prepares
