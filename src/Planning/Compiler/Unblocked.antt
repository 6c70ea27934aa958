-- ===== src/Planning/Compiler/Unblocked.antt =====
-- planning/compiler.py: when a compiled plan is blocked.
use airflow_dq_agent.Prelude.{
  String, ◌≡◌, refl, subst, sym, ap, ◌∙◌, true, false, not, List, [], ◌∷◌, ◌++◌, Option, has_key,
  is_empty, arith,
}
use airflow_dq_agent.Errors.{ok, ok-injective, >>=-eq-ok}
use airflow_dq_agent.Contracts.Value.{Datetime}
use airflow_dq_agent.Contracts.Report.{QualitySuiteReport, incomplete}
use airflow_dq_agent.Contracts.Plan.{
  Proposal, PlanItem, executable, non_executable, executable_items, block_reasons, RemediationPlan,
}
use airflow_dq_agent.CheckPolicy.{failed_checks_by_id}
use airflow_dq_agent.Environment.{Env}
use airflow_dq_agent.Planning.Compiler.{
  TargetSetResolver, block_all, incompleteness, incomplete_reason, compile_items, assemble_plan,
  compile_remediation_plan,
}
use airflow_dq_agent.Planning.Compiler.Authorized.{block_all-blocks}
use airflow_dq_agent.Planning.Compiler.Covered.{
  mentions, remedies, compile_remediation_plan-mentions,
}

all_executable :
    (k : String) (items : List PlanItem)
    → block_reasons items ≡ []
    → mentions k items ≡ remedies k (executable_items items)
all_executable k [] h = refl
all_executable k (executable item ∷ items) h = rw (all_executable k items h) refl
all_executable k (non_executable item ∷ items) h = cc

-- Whether a plan is blocked, read off its items and its report.
pub record BlockedAsFound (report : QualitySuiteReport) (plan : RemediationPlan) : Type 0 where
  pub reasons : plan.blocked_reasons ≡ block_reasons plan.items ++ incompleteness report
  pub blocked : plan.blocked ≡ not (is_empty plan.blocked_reasons)

compile_remediation_plan-BlockedAsFound :
    (env : Env) (resolver : TargetSetResolver) (environment : Option String) (plan_id : String)
    (compiled_at : Datetime) (report : QualitySuiteReport) (candidate : Proposal)
    (plan : RemediationPlan)
    → compile_remediation_plan env resolver environment plan_id compiled_at report candidate
      ≡ ok plan
    → BlockedAsFound report plan
unfolding compile_remediation_plan
compile_remediation_plan-BlockedAsFound env resolver environment plan_id compiled_at report
      candidate plan h =
    let (items, e, h₁) =
      >>=-eq-ok (compile_items env resolver report candidate.candidate_actions) _ h in
    subst (BlockedAsFound report) (ok-injective h₁) (record { reasons = refl; blocked = refl })

no_reasons :
    (report : QualitySuiteReport) (reasons : List String)
    → not (is_empty (reasons ++ incompleteness report)) ≡ false
    → (reasons ≡ []) × (incomplete report ≡ false)
no_reasons report [] h = (refl, ground arith)
no_reasons report (reason ∷ reasons) h = cc

pub compile_remediation_plan-unblocked :
    (env : Env) (resolver : TargetSetResolver) (environment : Option String) (plan_id : String)
    (compiled_at : Datetime) (report : QualitySuiteReport) (candidate : Proposal)
    (plan : RemediationPlan)
    → compile_remediation_plan env resolver environment plan_id compiled_at report candidate
      ≡ ok plan
    → plan.blocked ≡ false
    → (block_reasons plan.items ≡ []) × (incomplete report ≡ false)
compile_remediation_plan-unblocked env resolver environment plan_id compiled_at report candidate
      plan h ready =
    let f =
      compile_remediation_plan-BlockedAsFound env resolver environment plan_id compiled_at report
        candidate plan h in
    no_reasons report (block_reasons plan.items)
      (ap (λ r. not (is_empty r)) (sym f.reasons) ∙ (sym f.blocked ∙ ready))

-- An unblocked plan comes from a complete report, has executable items only, and remedies every
-- failed check of the report.
pub compile_remediation_plan-remedies :
    (env : Env) (resolver : TargetSetResolver) (environment : Option String) (plan_id : String)
    (compiled_at : Datetime) (report : QualitySuiteReport) (candidate : Proposal)
    (plan : RemediationPlan)
    → compile_remediation_plan env resolver environment plan_id compiled_at report candidate
      ≡ ok plan
    → plan.blocked ≡ false
    → (incomplete report ≡ false)
      × (block_reasons plan.items ≡ [])
      × ((k : String)
          → has_key k (failed_checks_by_id report) ≡ true
          → remedies k (executable_items plan.items) ≡ true)
compile_remediation_plan-remedies env resolver environment plan_id compiled_at report candidate plan
      h ready =
    let (unblocked, whole) =
      compile_remediation_plan-unblocked env resolver environment plan_id compiled_at report
        candidate plan h ready in
    (
      whole,
      unblocked,
      λ k failing.
          sym (all_executable k plan.items unblocked)
          ∙ compile_remediation_plan-mentions env resolver environment plan_id compiled_at report
              candidate plan k h whole failing,
    )

some_reason :
    (reasons : List String) (reason : String) → not (is_empty (reasons ++ (reason ∷ []))) ≡ true
some_reason [] reason = refl
some_reason (r ∷ reasons) reason = refl

-- A plan from an incomplete report is blocked and has no executable item, whatever was proposed, and
-- its compilation raises nothing.
pub compile_remediation_plan-incomplete :
    (env : Env) (resolver : TargetSetResolver) (environment : Option String) (plan_id : String)
    (compiled_at : Datetime) (report : QualitySuiteReport) (candidate : Proposal)
    → incomplete report ≡ true
    → (plan : RemediationPlan) × (compile_remediation_plan env resolver environment plan_id
          compiled_at report candidate
        ≡ ok plan)
      × (plan.blocked ≡ true)
      × (executable_items plan.items ≡ [])
unfolding compile_remediation_plan compile_items
compile_remediation_plan-incomplete env resolver environment plan_id compiled_at report candidate
      partial =
    let items = block_all 0 candidate.candidate_actions in
    (
      assemble_plan env resolver environment plan_id compiled_at report candidate items,
      rw partial refl,
      rw partial (some_reason (block_reasons items) incomplete_reason),
      block_all-blocks 0 candidate.candidate_actions,
    )
