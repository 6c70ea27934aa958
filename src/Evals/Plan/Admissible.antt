-- ===== src/Evals/Plan/Admissible.antt =====
-- evals/harness.py: the evaluation of a freshly compiled plan, as later stages receive it.
use airflow_dq_agent.Prelude.{
  equal_texts, String, ◌≡◌, refl, subst, true, false, List, [], ◌∷◌, Option, ◌==◌, eq_refl, All,
}
use airflow_dq_agent.Errors.{ok, Refusing, >>=-eq-ok, ok-injective}
use airflow_dq_agent.Contracts.Value.{Value, Datetime, Params}
use airflow_dq_agent.Contracts.Report.{QualitySuiteReport}
use airflow_dq_agent.Contracts.Plan.{
  Proposal, TargetSet, PlanItem, executable, non_executable, RemediationPlan, executable_items,
  block_reasons,
}
use airflow_dq_agent.Contracts.Evaluation.{EvalScore, EvalReport}
use airflow_dq_agent.Environment.{Env}
use airflow_dq_agent.Planning.Payload.{evaluation_payload_fingerprint}
use airflow_dq_agent.Planning.Integrity.{
  verify_plan_integrity, evaluation_fingerprint, verify_evaluation_integrity,
}
use airflow_dq_agent.Planning.Policy.{current_policy_fingerprint}
use airflow_dq_agent.Planning.Compiler.{TargetSetResolver, compile_remediation_plan}
use airflow_dq_agent.Planning.Compiler.Authorized.{
  IsAuthorizedItem, compile_remediation_plan-Authorized,
}
use airflow_dq_agent.Planning.Compiler.Current.{
  compile_remediation_plan-current, compile_remediation_plan-verified,
}
use airflow_dq_agent.Planning.Compiler.Unblocked.{compile_remediation_plan-unblocked}
use airflow_dq_agent.Evals.Plan.{plan_scores, plan_report, evaluate_plan}
use airflow_dq_agent.Evals.Plan.Passed.{IsTargeted, IsSound, evaluate_plan-passed_iff}

-- A fingerprint is `sha256:` and hexadecimal digits, never the empty text.
abbrev pub IsNonempty : Env → Type 0
IsNonempty env = (v : Value) → (env.canonical_fingerprint v == "") ≡ false

plan_report-verified :
    (env : Env) (refusing : Refusing) (evaluation_id : String) (plan : RemediationPlan)
    (scores : List EvalScore)
    → IsNonempty env
    → verify_evaluation_integrity env refusing plan (plan_report env evaluation_id plan scores)
      ≡ ok (evaluation_fingerprint env (plan_report env evaluation_id plan scores))
unfolding verify_evaluation_integrity evaluation_fingerprint evaluation_payload_fingerprint
plan_report-verified env refusing evaluation_id plan scores filled =
    let print = evaluation_fingerprint env (plan_report env evaluation_id plan scores) in
    rw (filled _, equal_texts print, eq_refl plan.plan_id, eq_refl plan.fingerprint) refl

-- The evaluation of a plan passes the integrity check for that plan, whoever asks, when no
-- fingerprint is the empty text.
pub evaluate_plan-verified :
    (env : Env) (evaluation_id : String) (plan : RemediationPlan) (evaluation : EvalReport)
    (refusing : Refusing)
    → IsNonempty env
    → evaluate_plan env evaluation_id plan ≡ ok evaluation
    → verify_evaluation_integrity env refusing plan evaluation
      ≡ ok (evaluation_fingerprint env evaluation)
unfolding evaluate_plan
evaluate_plan-verified env evaluation_id plan evaluation refusing filled h =
    let (_, own, h₁) = >>=-eq-ok (verify_plan_integrity env Refusing.evaluation plan) _ h in
    let (current, e, h₂) = >>=-eq-ok (current_policy_fingerprint env plan) _ h₁ in
    subst (λ r. verify_evaluation_integrity env refusing plan r ≡ ok (evaluation_fingerprint env r))
      (ok-injective h₂)
      (plan_report-verified env refusing evaluation_id plan (plan_scores plan current) filled)

-- The resolver never returns an empty fingerprint, which no target set can have.
abbrev pub ResolvesNonempty : TargetSetResolver → Type 0
ResolvesNonempty resolver =
    (report_run_id check_id action_id table : String) (params : Params) (t : TargetSet)
    → resolver.resolve report_run_id check_id action_id table params ≡ ok t
    → (t.fingerprint == "") ≡ false

executable_items-IsTargeted :
    (env : Env) (resolver : TargetSetResolver) (report : QualitySuiteReport) (failures : _)
    (items : List PlanItem)
    → ResolvesNonempty resolver
    → block_reasons items ≡ []
    → All (IsAuthorizedItem env resolver report failures) (executable_items items)
    → All IsTargeted items
executable_items-IsTargeted env resolver report failures [] f n h = tt
executable_items-IsTargeted env resolver report failures (executable item ∷ items) f n h = (
  f report.run_id h.0.first.check_id item.action_id item.table h.0.justification.params
      item.target_set h.0.resolved,
  executable_items-IsTargeted env resolver report failures items f n h.1,
)
executable_items-IsTargeted env resolver report failures (non_executable item ∷ items) f n h = cc

fresh_plan-IsSound :
    (env : Env) (resolver : TargetSetResolver) (environment : Option String) (plan_id : String)
    (compiled_at : Datetime) (report : QualitySuiteReport) (candidate : Proposal)
    (plan : RemediationPlan)
    → ResolvesNonempty resolver
    → compile_remediation_plan env resolver environment plan_id compiled_at report candidate
      ≡ ok plan
    → plan.blocked ≡ false
    → IsSound env plan
fresh_plan-IsSound env resolver environment plan_id compiled_at report candidate plan filled h
      ready =
    record {
      unblocked = ready;
      current =
          compile_remediation_plan-current env resolver environment plan_id compiled_at report
            candidate plan h;
      targeted =
          executable_items-IsTargeted env resolver report _ plan.items filled
            (compile_remediation_plan-unblocked env resolver environment plan_id compiled_at report
              candidate plan h ready).0
            (compile_remediation_plan-Authorized env resolver environment plan_id compiled_at report
              candidate plan h);
    }

-- An unblocked plan, evaluated with the catalogs it was compiled with, passes, when the resolver
-- returns no empty fingerprint; and the evaluation is produced.
pub evaluate_plan-fresh :
    (env : Env) (resolver : TargetSetResolver) (environment : Option String) (plan_id : String)
    (compiled_at : Datetime) (report : QualitySuiteReport) (candidate : Proposal)
    (plan : RemediationPlan) (evaluation_id : String)
    → ResolvesNonempty resolver
    → compile_remediation_plan env resolver environment plan_id compiled_at report candidate
      ≡ ok plan
    → plan.blocked ≡ false
    → (evaluation : EvalReport) × (evaluate_plan env evaluation_id plan ≡ ok evaluation)
      × (evaluation.passed ≡ true)
unfolding evaluate_plan
evaluate_plan-fresh env resolver environment plan_id compiled_at report candidate plan evaluation_id
      filled h ready =
    let evaluation =
      plan_report env evaluation_id plan (plan_scores plan plan.policy_fingerprint) in
    let produced : evaluate_plan env evaluation_id plan ≡ ok evaluation =
      rw
        (
          compile_remediation_plan-verified env resolver environment plan_id compiled_at report
              candidate plan Refusing.evaluation h,
          compile_remediation_plan-current env resolver environment plan_id compiled_at report
              candidate plan h,
        )
        refl in
    (
      evaluation,
      produced,
      (evaluate_plan-passed_iff env evaluation_id plan evaluation produced).1 (
          fresh_plan-IsSound env resolver environment plan_id compiled_at report candidate plan
            filled h ready),
    )
