-- ===== src/Tests/Application.antt =====
-- The outcomes of the sample application.
use airflow_dq_agent.Prelude.{
  false, ◌==◌, get, ◌≡◌, refl, some, decimal, decimal_digits, digit, last_segment, strip, lstrip,
  rstrip, ℕ, suc, zero, All, sym, ap,
}
use airflow_dq_agent.Contracts.Value.{
  params_eq, value_eq, Value, null, text, list, dict, Values, nil, cons, Fields, end,
}
use airflow_dq_agent.Contracts.Tables.{get_table_contract, has_column}
use airflow_dq_agent.Contracts.Report.{incomplete}
use airflow_dq_agent.Contracts.Remediations.{validate_common_params}
use airflow_dq_agent.Quality.Registry.{rule_for, get_check_spec}
use airflow_dq_agent.Actions.{validate_params, derive_params, render_action}
use airflow_dq_agent.Actions.Derive.{derive_nulls, derive_no_op, require_column, single_pk}
use airflow_dq_agent.Actions.Validate.{validate_primary_key, validate_no_additional_rules}
use airflow_dq_agent.Actions.Registered.{governed_actions, get_governed_action}
use airflow_dq_agent.CheckPolicy.{failed_checks_by_id, cited_specs, consistent, justify_action}
use airflow_dq_agent.Environment.{report_payload_fingerprint}
use airflow_dq_agent.Planning.Payload.{
  plan_payload, plan_payload_fingerprint, evaluation_payload, evaluation_payload_fingerprint,
  decision_payload, human_decision_fingerprint, admission_payload, admission_payload_fingerprint,
}
use airflow_dq_agent.Planning.Integrity.{
  verify_report_integrity, plan_fingerprint, verify_plan_integrity, evaluation_fingerprint,
  verify_evaluation_integrity, verify_decision_integrity, rederive, covered_by,
  verify_executable_params, verify_admission_integrity,
}
use airflow_dq_agent.Planning.Policy.{
  contract_value, spec_value, action_value, policy_fingerprint, item_policy_fingerprint,
  current_policy_fingerprint,
}
use airflow_dq_agent.Planning.Compiler.{
  is_duplicate, authorize, compile_action, compile_actions, omitted_failures, compile_items,
  proposal_value, compile_remediation_plan,
}
use airflow_dq_agent.Planning.Review.{
  review_item, review_payload, review_value, build_approval_review,
}
use airflow_dq_agent.Planning.Admission.{
  approval_event, verify_approval_event, verify_reviewed, verify_durable_approval, add_evidence,
  refuse_conflicts, refuse_conflicting_plan_items, create_apply_admission,
}
use airflow_dq_agent.Evals.Scores.{failed_scores}
use airflow_dq_agent.Evals.Plan.{plan_scores, evaluate_plan}
use airflow_dq_agent.Traces.Payload.{event_value, event_body}
use airflow_dq_agent.Traces.Lineage.{review_event, decision_event, apply_result_event}
use airflow_dq_agent.Hitl.{validate_human_decision, prepare_decision, record_human_decision}
use airflow_dq_agent.Apply.Execution.{
  apply_plan, run_apply, transaction, handle_apply, recovered_or,
}
use airflow_dq_agent.Apply.Recovery.{
  recover_committed_result, committed_row, recover_row, recover_steps, require_bound, body_get,
}
use airflow_dq_agent.Tests.Samples.{size, env}
use airflow_dq_agent.Actions.Render.{
  render_nulls, render_no_op, quarantine_step, quarantine_queries, str_of,
}
use airflow_dq_agent.Planning.Targets.{
  resolve, select_targets, fingerprint_target_rows, lock_and_resolve,
}
use airflow_dq_agent.Apply.Transaction.{
  set_controlled_transaction_mode, arm_admission_deadline, refuse_consumed_admission, check_targets,
  apply_item, apply_items, apply_statements,
}
use airflow_dq_agent.Apply.Authority.{
  require_plan_admission, require_apply_warehouse_environment,
  resolve_apply_warehouse_environment_id, read_apply_clock, remaining_ms,
}
use airflow_dq_agent.Apply.Results.{result_fingerprint, apply_record}
use airflow_dq_agent.Errors.{ok, ok-injective}
use airflow_dq_agent.Contracts.Plan.{executable_items}
use airflow_dq_agent.Apply.Recovery.Steps.{IsNamedByContract}
use airflow_dq_agent.Apply.Recovery.Held.{Holds}
use airflow_dq_agent.Tests.Runs.{plan, admission}
use airflow_dq_agent.Tests.Applied.{ran, done, first, again, result, committed_row_of}

abbrev fields_of : Value → Fields
fields_of (dict fs) = fs
fields_of v = end

abbrev entries_of : Value → Values
entries_of (list vs) = vs
entries_of v = nil

abbrev nth_of : ℕ → Values → Value
nth_of n nil = null
nth_of zero (cons v vs) = v
nth_of (suc n) (cons v vs) = nth_of n vs

abbrev steps_of : Values
steps_of = entries_of (body_get (fields_of (event_body done.1)) "apply_steps")

-- The statements end well, `apply_plan` returns their result, the rows are copied once, and a second
-- application returns the recovered result and copies none.
pub record Commits : Type 0 where
  pub named_admission : (strip admission.admission_id == "") ≡ false
  pub runs : ran ≡ (ok done, ran.1)
  pub returns : first.0 ≡ ok result
  pub copies : first.1.store.copied ≡ 3
  pub recovers : again.0 ≡ ok result
  pub keeps : again.1.store ≡ first.1.store
  pub row : get admission.admission_id first.1.store.results ≡ some committed_row_of
  pub rebuilds : recover_row env plan admission committed_row_of ≡ ok result
  pub run_id : str_of env committed_row_of.run_id ≡ "apply-1"
  pub logged : committed_row_of.plan_id ≡ text plan.plan_id
  pub named : All (IsNamedByContract env) (executable_items plan.items)
  pub held : Holds env committed_row_of done.1

pub commits : Commits
unfolding compile_remediation_plan compile_items compile_actions compile_action authorize
    is_duplicate omitted_failures failed_checks_by_id incomplete justify_action cited_specs
    get_check_spec consistent derive_params rule_for get_table_contract get_governed_action
    governed_actions derive_nulls derive_no_op require_column single_pk validate_params
    validate_common_params has_column validate_primary_key validate_no_additional_rules
    policy_fingerprint plan_payload plan_payload_fingerprint decimal decimal_digits digit
    last_segment params_eq value_eq contract_value spec_value action_value proposal_value size
    evaluate_plan verify_plan_integrity plan_fingerprint current_policy_fingerprint
    item_policy_fingerprint plan_scores evaluation_payload evaluation_payload_fingerprint
    failed_scores report_payload_fingerprint review_item review_payload review_value
    build_approval_review verify_report_integrity verify_evaluation_integrity evaluation_fingerprint
    verify_decision_integrity rederive covered_by verify_executable_params approval_event
    verify_approval_event verify_reviewed verify_durable_approval add_evidence refuse_conflicts
    refuse_conflicting_plan_items create_apply_admission review_event decision_event event_value
    decision_payload human_decision_fingerprint admission_payload admission_payload_fingerprint
    validate_human_decision prepare_decision record_human_decision strip lstrip rstrip resolve
    select_targets fingerprint_target_rows render_action render_nulls render_no_op quarantine_step
    quarantine_queries set_controlled_transaction_mode arm_admission_deadline
    refuse_consumed_admission check_targets apply_item apply_items apply_statements
    require_plan_admission require_apply_warehouse_environment
    resolve_apply_warehouse_environment_id read_apply_clock remaining_ms verify_admission_integrity
    lock_and_resolve result_fingerprint apply_record apply_result_event event_body apply_plan
    run_apply transaction handle_apply recovered_or recover_committed_result committed_row
    recover_row recover_steps require_bound
commits = record {
  named_admission = refl;
  runs = refl;
  returns = refl;
  copies = refl;
  recovers = refl;
  keeps = refl;
  row = refl;
  rebuilds = refl;
  run_id = refl;
  logged = refl;
  named = (
    λ contract h. sym (ap (λ c. c.table) (ok-injective h)),
    (λ contract h. sym (ap (λ c. c.table) (ok-injective h)), tt),
  );
  held = record {
    body = fields_of (event_body done.1);
    decoded = refl;
    texts = λ key s h. h;
    entries = steps_of;
    listed = refl;
    evidence = (
      record {
        body = fields_of (nth_of 0 steps_of);
        object = refl;
        action_id = refl;
        table = refl;
        estimated_rows = refl;
        rowcount = refl;
      },
      (
        record {
          body = fields_of (nth_of 1 steps_of);
          object = refl;
          action_id = refl;
          table = refl;
          estimated_rows = refl;
          rowcount = refl;
        },
        tt,
      ),
    );
  };
}
