-- ===== src/Tests/Stages.antt =====
-- The outcome of each stage of the run.
use airflow_dq_agent.Contracts.Plan.{executable_items}
use airflow_dq_agent.Planning.Compiler.Rederived.{ReportMatches, HasReflexiveParams}
use airflow_dq_agent.Contracts.Tables.{or_key_error-eq-ok}
use airflow_dq_agent.Prelude.{
  All, All-get, ◌∙◌, ap, subst, sym, [], ◌∷◌, ◌≡◌, refl, some, decimal, decimal_digits, digit,
  last_segment, strip, lstrip, rstrip,
}
use airflow_dq_agent.Errors.{ok}
use airflow_dq_agent.Contracts.Value.{params_eq, value_eq}
use airflow_dq_agent.Contracts.Tables.{get_table_contract, has_column}
use airflow_dq_agent.Contracts.Report.{incomplete}
use airflow_dq_agent.Contracts.Remediations.{validate_common_params}
use airflow_dq_agent.Quality.Registry.{rule_for, get_check_spec}
use airflow_dq_agent.Actions.{validate_params, derive_params}
use airflow_dq_agent.Actions.Derive.{derive_nulls, derive_no_op, require_column, single_pk}
use airflow_dq_agent.Actions.Validate.{validate_primary_key, validate_no_additional_rules}
use airflow_dq_agent.Actions.Registered.{governed_actions, get_governed_action}
use airflow_dq_agent.CheckPolicy.{failed_checks_by_id, cited_specs, consistent, justify_action}
use airflow_dq_agent.Environment.{report_payload_fingerprint}
use airflow_dq_agent.Planning.Payload.{
  plan_payload, plan_payload_fingerprint, evaluation_payload, evaluation_payload_fingerprint,
  decision_payload, human_decision_fingerprint, admission_payload, admission_payload_fingerprint,
}
use airflow_dq_agent.Planning.Integrity.{
  verify_report_integrity, plan_fingerprint, verify_plan_integrity, evaluation_fingerprint,
  verify_evaluation_integrity, verify_decision_integrity, rederive, covered_by,
  verify_executable_params,
}
use airflow_dq_agent.Planning.Policy.{
  contract_value, spec_value, action_value, policy_fingerprint, item_policy_fingerprint,
  current_policy_fingerprint,
}
use airflow_dq_agent.Planning.Compiler.{
  is_duplicate, authorize, compile_action, compile_actions, omitted_failures, compile_items,
  proposal_value, compile_remediation_plan,
}
use airflow_dq_agent.Planning.Review.{
  review_item, review_payload, review_value, build_approval_review,
}
use airflow_dq_agent.Planning.Admission.{
  approval_event, verify_approval_event, verify_reviewed, verify_durable_approval, add_evidence,
  refuse_conflicts, refuse_conflicting_plan_items, create_apply_admission,
}
use airflow_dq_agent.Evals.Scores.{failed_scores}
use airflow_dq_agent.Evals.Plan.{plan_scores, evaluate_plan}
use airflow_dq_agent.Traces.Payload.{event_value}
use airflow_dq_agent.Traces.Lineage.{review_event, decision_event}
use airflow_dq_agent.Hitl.{validate_human_decision, prepare_decision, record_human_decision}
use airflow_dq_agent.Hitl.Admitted.{HasText}
use airflow_dq_agent.Contracts.Decision.{AuditEvent, DecisionKind}
use airflow_dq_agent.Evals.Plan.Admissible.{IsNonempty}
use airflow_dq_agent.Tests.Samples.{at, fingerprint_text, or_default-nonempty, env, size}
use airflow_dq_agent.Tests.Runs.{
  report, review, reviewed, evaluated, first_event, persist, compiled, plan, evaluation, decision,
  recorded, lookup, admitted, admission, ttl,
}
use airflow_dq_agent.Actions.{render_action}
use airflow_dq_agent.Actions.Render.{
  render_nulls, render_no_op, quarantine_step, quarantine_queries,
}
use airflow_dq_agent.Planning.Targets.{resolve, select_targets, fingerprint_target_rows}

pub record Succeeds : Type 0 where
  pub plans : compiled ≡ ok plan
  pub evaluates : evaluate_plan env "evaluation-1" plan ≡ ok evaluated
  pub records : recorded ≡ (ok decision, recorded.1)
  pub approves :
      verify_durable_approval env plan evaluation decision ttl (some lookup) ≡ ok "event-5"
  pub admits : admitted ≡ ok admission
  pub builds : build_approval_review env plan evaluation ttl ≡ ok review
  pub review_text : HasText review.fingerprint
  pub event_text : HasText "event-5"
  pub stores : lookup "event-4" ≡ some reviewed
  pub finds : lookup (first_event recorded.1).event_id ≡ some (first_event recorded.1)
  pub is_approval : decision.decision ≡ DecisionKind.approve
  pub decided : decision.decided_at ≡ at 50
  pub reflexive : All HasReflexiveParams (executable_items plan.items)

pub succeeds : Succeeds
unfolding compile_remediation_plan compile_items compile_actions compile_action authorize
    is_duplicate omitted_failures failed_checks_by_id incomplete justify_action cited_specs
    get_check_spec consistent derive_params rule_for get_table_contract get_governed_action
    governed_actions derive_nulls derive_no_op require_column single_pk validate_params
    validate_common_params has_column validate_primary_key validate_no_additional_rules
    policy_fingerprint plan_payload plan_payload_fingerprint decimal decimal_digits digit
    last_segment params_eq value_eq contract_value spec_value action_value proposal_value size
    evaluate_plan verify_plan_integrity plan_fingerprint current_policy_fingerprint
    item_policy_fingerprint plan_scores evaluation_payload evaluation_payload_fingerprint
    failed_scores report_payload_fingerprint review_item review_payload review_value
    build_approval_review verify_report_integrity verify_evaluation_integrity evaluation_fingerprint
    verify_decision_integrity rederive covered_by verify_executable_params approval_event
    verify_approval_event verify_reviewed verify_durable_approval add_evidence refuse_conflicts
    refuse_conflicting_plan_items create_apply_admission review_event decision_event event_value
    decision_payload human_decision_fingerprint admission_payload admission_payload_fingerprint
    validate_human_decision prepare_decision record_human_decision strip lstrip rstrip resolve
    select_targets fingerprint_target_rows render_action render_nulls render_no_op quarantine_step
    quarantine_queries
succeeds = record {
  plans = refl;
  evaluates = refl;
  records = refl;
  approves = refl;
  admits = refl;
  builds = refl;
  review_text = refl;
  event_text = refl;
  stores = refl;
  finds = refl;
  is_approval = refl;
  decided = refl;
  reflexive = (refl, (refl, tt));
}

pub persisted-found :
    (e : AuditEvent) → persist e (reviewed ∷ []) ≡ (ok tt, recorded.1) → lookup e.event_id ≡ some e
persisted-found e h =
    subst (λ x. lookup x.event_id ≡ some x) (sym (ap (λ r. first_event r.1) h)) succeeds.finds

pub report-ReportMatches : ReportMatches env.catalog report
unfolding failed_checks_by_id get_check_spec
report-ReportMatches k failed spec f s =
    let (i, same, found) =
      All-get (λ e. (e.1.contract_id ≡ "warehouse.invoice") × (e.1.table ≡ "invoice")) k
        (failed_checks_by_id report) ((refl, refl), ((refl, refl), tt)) f in
    let (j, own, declared) =
      All-get (λ e. (e.1.contract_id ≡ "warehouse.invoice") × (e.1.table ≡ "invoice")) k
        env.catalog.check_specs ((refl, refl), ((refl, refl), tt)) (or_key_error-eq-ok k _ s) in
    (declared.0 ∙ sym found.0, found.1 ∙ sym declared.1)

pub filled : IsNonempty env
filled v = or_default-nonempty (fingerprint_text v)
