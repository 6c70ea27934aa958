-- ===== src/Apply/Recovery/Recorded.antt =====
-- apply/executor.py: what a transaction recorded is what is recovered.
use airflow_dq_agent.Prelude.{
  ◌≡◌, refl, sym, ap, subst, ◌∙◌, Bool, true, false, not, [], some, All, ◌==◌, ◌||◌, ◌!=◌,
  option_eq, !=→≡, option_eq→≡, not-false,
}
use airflow_dq_agent.Planning.Integrity.Verified.{refuse_if-ok}
use airflow_dq_agent.Planning.Integrity.{
  verify_report_integrity, verify_plan_integrity, verify_evaluation_integrity,
  verify_admission_integrity,
}
use airflow_dq_agent.Contracts.Report.{QualitySuiteReport}
use airflow_dq_agent.Apply.Authority.{Runtime, Request, any_blocked, require_plan_admission}
use airflow_dq_agent.Apply.Session.{Session}
use airflow_dq_agent.Apply.Transacted.{apply_statements-IsTransacted}
use airflow_dq_agent.Apply.Live.{apply_statements-steps}
use airflow_dq_agent.Errors.{
  permission_error, plan_blocked, evaluation_failed, ok, Refusing, refuse_if-eq-ok, >>=-eq-ok,
}
use airflow_dq_agent.Contracts.Value.{text}
use airflow_dq_agent.Contracts.Plan.{RemediationPlan, executable_items}
use airflow_dq_agent.Contracts.Evaluation.{EvalReport}
use airflow_dq_agent.Contracts.Decision.{ApplyAdmission}
use airflow_dq_agent.Actions.Render.{str_of}
use airflow_dq_agent.Environment.{Env}
use airflow_dq_agent.Apply.Results.{Concluded}
use airflow_dq_agent.Apply.Recovery.{recover_row}
use airflow_dq_agent.Apply.Transaction.{ApplyDraw, apply_statements}
use airflow_dq_agent.Apply.Progress.{AreStepsOf}
use airflow_dq_agent.Warehouse.{Database, CommittedRow}
use airflow_dq_agent.Apply.Recovery.Steps.{IsNamedByContract}
use airflow_dq_agent.Apply.Recovery.Held.{Holds, recover_row-held}

or-false : (a b : Bool) → (a || b) ≡ false → (a ≡ false) × (b ≡ false)
or-false true b h = cc
or-false false b h = (refl, h)

-- The admission is of the evaluation.
own_evaluation :
    (env : Env) (refusing : Refusing) (plan : RemediationPlan) (evaluation : EvalReport)
    (admission : ApplyAdmission)
    → verify_admission_integrity env refusing plan evaluation admission ≡ ok tt
    → (admission.evaluation_id ≡ evaluation.evaluation_id)
      × (evaluation.fingerprint ≡ some admission.evaluation_fingerprint)
unfolding verify_admission_integrity
own_evaluation env refusing plan evaluation admission h =
    let (same, h₁) = refuse_if-eq-ok _ _ _ h in
    let (p, k₁) = or-false (admission.plan_id != plan.plan_id) _ (refuse_if-ok _ _ h₁) in
    let (f, k₂) = or-false (admission.plan_fingerprint != plan.fingerprint) _ k₁ in
    let (q, k₃) = or-false (admission.quality_run_id != plan.quality_run_id) _ k₂ in
    let (e, k₄) = or-false (admission.evaluation_id != evaluation.evaluation_id) _ k₃ in
    let (m, k₅) =
      or-false (not (option_eq (some admission.evaluation_fingerprint) evaluation.fingerprint))
        (admission.warehouse_environment_id != plan.warehouse_environment_id) k₄ in
    (
      !=→≡ admission.evaluation_id evaluation.evaluation_id e,
      sym (
          option_eq→≡ (some admission.evaluation_fingerprint) evaluation.fingerprint
            (not-false _ m)),
    )

authorized_evaluation :
    (env : Env) (plan : RemediationPlan) (evaluation : EvalReport) (report : QualitySuiteReport)
    (admission : ApplyAdmission)
    → require_plan_admission env plan evaluation report admission ≡ ok tt
    → (admission.evaluation_id ≡ evaluation.evaluation_id)
      × (evaluation.fingerprint ≡ some admission.evaluation_fingerprint)
unfolding require_plan_admission
authorized_evaluation env plan evaluation report admission h =
    let (unblocked, h₁) =
      refuse_if-eq-ok (plan.blocked || any_blocked plan.items)
        (permission_error Refusing.apply plan_blocked) _ h in
    let (passed, h₂) =
      refuse_if-eq-ok (not evaluation.passed) (permission_error Refusing.apply evaluation_failed) _
        h₁ in
    let (u₃, reported, h₃) = >>=-eq-ok (verify_report_integrity env Refusing.apply report) _ h₂ in
    let (u₄, planned, h₄) = >>=-eq-ok (verify_plan_integrity env Refusing.apply plan) _ h₃ in
    let (print, evaluated, h₅) =
      >>=-eq-ok (verify_evaluation_integrity env Refusing.apply plan evaluation) _ h₄ in
    let (u₆, admitted, h₆) =
      >>=-eq-ok (verify_admission_integrity env Refusing.apply plan evaluation admission) _ h₅ in
    own_evaluation env Refusing.apply plan evaluation admission admitted

module _ {S : Type 0} (env : Env) (database : Database S) (runtime : Runtime) (request : Request)
    (plan : RemediationPlan) (evaluation : EvalReport) (report : QualitySuiteReport)
    (draw : ApplyDraw) (admission : ApplyAdmission) (row : CommittedRow) where
  -- What a mutation recorded is what is recovered: if statements that began with no step taken, under
  -- the run identifier that the row bears, ended well, and the row bears the plan's identifier and holds
  -- the event that was recorded, then the recovery raises nothing and gives back the very result of
  -- those statements, each step with its statement, its estimate and its row count. The identifiers
  -- drawn for the result and its event are not empty, and the items name their tables as the contracts
  -- do.
  pub recover_row-recorded :
      (before after : Session S) (done : Concluded)
      → before.steps ≡ []
      → apply_statements env database runtime request plan evaluation report draw
          (str_of env row.run_id)
          admission
          before
        ≡ (ok done, after)
      → (draw.apply_result_id == "") ≡ false
      → (draw.stamp.event_id == "") ≡ false
      → All (IsNamedByContract env) (executable_items plan.items)
      → row.plan_id ≡ text plan.plan_id
      → Holds env row done.1
      → recover_row env plan admission row ≡ ok done.0
  recover_row-recorded before after done fresh h result_id event_id named logged held =
      let run_id = str_of env row.run_id in
      let t =
        apply_statements-IsTransacted env database runtime request plan evaluation report draw
          run_id admission before after done h in
      let steps =
        apply_statements-steps env database runtime request plan evaluation report draw run_id
          admission before after done fresh h in
      let (same_id, same_fingerprint) =
        authorized_evaluation env plan evaluation report admission t.authorized in
      recover_row-held env plan evaluation draw admission t.applied.steps row same_id
        same_fingerprint result_id event_id named
        (subst (λ d. AreStepsOf env run_id (executable_items plan.items) d.0.steps) t.concludes
          steps)
        logged (subst (λ d. Holds env row d.1) t.concludes held)
      ∙ ap (λ d. ok d.0) (sym t.concludes)
