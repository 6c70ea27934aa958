-- ===== src/Tests/Rendered.antt =====
-- The first item of the sample plan, rendered and resolved.
use airflow_dq_agent.Prelude.{
  ◌≡◌, refl, sym, ap, ◌∙◌, last_segment, decimal, decimal_digits, digit, [],
}
use airflow_dq_agent.Contracts.Value.{params_eq, value_eq}
use airflow_dq_agent.Contracts.Tables.{get_table_contract, has_column}
use airflow_dq_agent.Contracts.Report.{incomplete}
use airflow_dq_agent.Contracts.Remediations.{validate_common_params}
use airflow_dq_agent.Quality.Registry.{rule_for, get_check_spec}
use airflow_dq_agent.Actions.{validate_params, derive_params}
use airflow_dq_agent.Actions.Derive.{derive_nulls, derive_no_op, require_column, single_pk}
use airflow_dq_agent.Actions.Validate.{validate_primary_key, validate_no_additional_rules}
use airflow_dq_agent.Actions.Registered.{governed_actions, get_governed_action}
use airflow_dq_agent.CheckPolicy.{failed_checks_by_id, cited_specs, consistent, justify_action}
use airflow_dq_agent.Environment.{report_payload_fingerprint}
use airflow_dq_agent.Planning.Payload.{
  plan_payload, plan_payload_fingerprint, evaluation_payload, evaluation_payload_fingerprint,
  decision_payload, human_decision_fingerprint, admission_payload, admission_payload_fingerprint,
}
use airflow_dq_agent.Planning.Integrity.{
  verify_report_integrity, plan_fingerprint, verify_plan_integrity, evaluation_fingerprint,
  verify_evaluation_integrity, verify_decision_integrity, rederive, covered_by,
  verify_executable_params,
}
use airflow_dq_agent.Planning.Policy.{
  contract_value, spec_value, action_value, policy_fingerprint, item_policy_fingerprint,
  current_policy_fingerprint,
}
use airflow_dq_agent.Planning.Compiler.{
  is_duplicate, authorize, compile_action, compile_actions, omitted_failures, compile_items,
  proposal_value, compile_remediation_plan,
}
use airflow_dq_agent.Planning.Review.{
  review_item, review_payload, review_value, build_approval_review,
}
use airflow_dq_agent.Planning.Admission.{
  approval_event, verify_approval_event, verify_reviewed, verify_durable_approval, add_evidence,
  refuse_conflicts, refuse_conflicting_plan_items, create_apply_admission,
}
use airflow_dq_agent.Evals.Scores.{failed_scores}
use airflow_dq_agent.Evals.Plan.{plan_scores, evaluate_plan}
use airflow_dq_agent.Traces.Payload.{event_value}
use airflow_dq_agent.Traces.Lineage.{review_event, decision_event}
use airflow_dq_agent.Hitl.{validate_human_decision, prepare_decision, record_human_decision}
use airflow_dq_agent.Apply.Execution.{
  apply_plan, run_apply, transaction, handle_apply, recovered_or,
}
use airflow_dq_agent.Apply.Recovery.{
  recover_committed_result, committed_row, recover_row, recover_steps, require_bound,
}
use airflow_dq_agent.Tests.Samples.{size}
use airflow_dq_agent.Actions.{render_action}
use airflow_dq_agent.Actions.Render.{
  render_nulls, render_no_op, quarantine_step, quarantine_queries,
}
use airflow_dq_agent.Planning.Targets.{resolve, select_targets, fingerprint_target_rows}
use airflow_dq_agent.Apply.Transaction.{
  set_controlled_transaction_mode, arm_admission_deadline, refuse_consumed_admission, check_targets,
  apply_item, apply_items, apply_statements,
}
use airflow_dq_agent.Apply.Authority.{
  require_plan_admission, require_apply_warehouse_environment,
  resolve_apply_warehouse_environment_id, read_apply_clock, remaining_ms,
}
use airflow_dq_agent.Planning.Integrity.{verify_admission_integrity}
use airflow_dq_agent.Planning.Targets.{lock_and_resolve}
use airflow_dq_agent.Apply.Results.{result_fingerprint, apply_record}
use airflow_dq_agent.Traces.Lineage.{apply_result_event}
use airflow_dq_agent.Traces.Payload.{event_body}
use airflow_dq_agent.Prelude.{
  strip, lstrip, rstrip, none, String, All, ◌==◌, Bool-cases, inl, inr, ◌∷◌,
}
use airflow_dq_agent.Contracts.Value.{text, Params}
use airflow_dq_agent.Contracts.Plan.{freeze_params}
use airflow_dq_agent.Actions.Frozen.{IsFlat}
use airflow_dq_agent.Errors.{Result, ok, ok-injective}
use airflow_dq_agent.Actions.{render_action}
use airflow_dq_agent.Actions.Registered.{quarantine_nulls, get_governed_action}
use airflow_dq_agent.Actions.Render.{RenderedStep}
use airflow_dq_agent.Planning.Targets.{
  Rows, target_rows, selected_rows, render_by_id, resolve, lock_and_resolve,
}
use airflow_dq_agent.Planning.Integrity.Verified.{NoCollision}
use airflow_dq_agent.Tests.Samples.{env, value_or}
use airflow_dq_agent.Tests.Applied.{item, first}
use airflow_dq_agent.Tests.Store.{Store, database, store}

abbrev pub rendered_item : Result RenderedStep
rendered_item = render_action env quarantine_nulls item.table item.params "apply-1"

abbrev unrendered : RenderedStep
unrendered = record {
  action_id = "";
  table = "";
  sql = "";
  params = [];
  target_sql = none;
  target_params = [];
}

abbrev pub step : RenderedStep
step = value_or unrendered rendered_item

-- Parameters that are texts hold no list.
pub texts-IsFlat :
    (params : Params) → All (λ entry. (s : String) × (entry.1 ≡ text s)) params → IsFlat params
texts-IsFlat [] all key vs h = cc
texts-IsFlat ((k, v) ∷ params) ((s, e), rest) key vs h = elim (Bool-cases (k == key)) [
  | inl same ↦ let found = rw same at h in cc
  | inr other ↦ texts-IsFlat params rest key vs (rw other at h)
]

pub record Renders : Type 0 where
  pub texts : All (λ entry. (s : String) × (entry.1 ≡ text s)) item.params
  pub frozen : item.params ≡ freeze_params item.params
  pub governed : get_governed_action item.action_id ≡ ok quarantine_nulls
  pub rendered : rendered_item ≡ ok step
  pub by_id : render_by_id env database "apply-1" item.action_id item.params item.table ≡ ok step
  pub compiled :
      resolve env database "run-1" "invoice.amount" item.action_id item.table item.params store
      ≡ ok item.target_set
  pub applied : lock_and_resolve env database item first.1.store ≡ ok item.target_set
  pub then_selected :
      selected_rows env database step.target_sql step.target_params store ≡ ok store.keys
  pub now_selected :
      selected_rows env database step.target_sql step.target_params first.1.store ≡ ok store.keys

pub renders : Renders
unfolding compile_remediation_plan compile_items compile_actions compile_action authorize
    is_duplicate omitted_failures failed_checks_by_id incomplete justify_action cited_specs
    get_check_spec consistent derive_params rule_for get_table_contract get_governed_action
    governed_actions derive_nulls derive_no_op require_column single_pk validate_params
    validate_common_params has_column validate_primary_key validate_no_additional_rules
    policy_fingerprint plan_payload plan_payload_fingerprint decimal decimal_digits digit
    last_segment params_eq value_eq contract_value spec_value action_value proposal_value size
    evaluate_plan verify_plan_integrity plan_fingerprint current_policy_fingerprint
    item_policy_fingerprint plan_scores evaluation_payload evaluation_payload_fingerprint
    failed_scores report_payload_fingerprint review_item review_payload review_value
    build_approval_review verify_report_integrity verify_evaluation_integrity evaluation_fingerprint
    verify_decision_integrity rederive covered_by verify_executable_params approval_event
    verify_approval_event verify_reviewed verify_durable_approval add_evidence refuse_conflicts
    refuse_conflicting_plan_items create_apply_admission review_event decision_event event_value
    decision_payload human_decision_fingerprint admission_payload admission_payload_fingerprint
    validate_human_decision prepare_decision record_human_decision strip lstrip rstrip resolve
    select_targets fingerprint_target_rows render_action render_nulls render_no_op quarantine_step
    quarantine_queries set_controlled_transaction_mode arm_admission_deadline
    refuse_consumed_admission check_targets apply_item apply_items apply_statements
    require_plan_admission require_apply_warehouse_environment
    resolve_apply_warehouse_environment_id read_apply_clock remaining_ms verify_admission_integrity
    lock_and_resolve result_fingerprint apply_record apply_result_event event_body apply_plan
    run_apply transaction handle_apply recovered_or recover_committed_result committed_row
    recover_row recover_steps require_bound
renders = record {
  texts = ((_, refl), ((_, refl), tt));
  frozen = refl;
  governed = refl;
  rendered = refl;
  by_id = refl;
  compiled = refl;
  applied = refl;
  then_selected = refl;
  now_selected = refl;
}

pub distinct :
    (rows others : Rows) (connected : Store)
    → database.begin store ≡ ok connected
    → selected_rows env database step.target_sql step.target_params connected ≡ ok rows
    → selected_rows env database step.target_sql step.target_params first.1.store ≡ ok others
    → NoCollision env (target_rows item.table rows) (target_rows item.table others)
distinct rows others connected begun earlier later equal =
    let same =
      ap (selected_rows env database step.target_sql step.target_params) (ok-injective begun) in
    let selected : store.keys ≡ rows =
      ok-injective (sym renders.then_selected ∙ (same ∙ earlier)) in
    let selected' : store.keys ≡ others = ok-injective (sym renders.now_selected ∙ later) in
    ap (target_rows item.table) (sym selected ∙ selected')
