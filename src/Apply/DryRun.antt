-- ===== src/Apply/DryRun.antt =====
-- apply/executor.py: the store through the statements of a dry run.
use airflow_dq_agent.Prelude.{String, ◌≡◌, sym, ap, ◌∙◌, subst, true, List, [], ◌∷◌, Option, none}
use airflow_dq_agent.Errors.{ok, Refusing}
use airflow_dq_agent.Contracts.Report.{QualitySuiteReport}
use airflow_dq_agent.Contracts.Plan.{ExecutablePlanItem, RemediationPlan, executable_items}
use airflow_dq_agent.Contracts.Evaluation.{EvalReport}
use airflow_dq_agent.Contracts.Decision.{ApplyAdmission}
use airflow_dq_agent.Environment.{Env}
use airflow_dq_agent.Planning.Targets.{resolve_item}
use airflow_dq_agent.Apply.Results.{Concluded}
use airflow_dq_agent.Apply.Authority.{Runtime, Request}
use airflow_dq_agent.Apply.Session.{Session, lift, on_store, append_step}
use airflow_dq_agent.Apply.Session.Inversion.{>>=-eq-ok, lift-eq-ok, on_store-eq-ok}
use airflow_dq_agent.Apply.Transaction.{
  ApplyDraw, set_controlled_transaction_mode, check_targets, recheck_plan, render_item, step_of,
  estimate_items, dry_run_statements,
}
use airflow_dq_agent.Apply.Transacted.{check_targets-unchanged, recheck_plan-eq-ok}
use airflow_dq_agent.Warehouse.{Database, isolation_level_serializable, transaction_read_only}

module _ {S : Type 0} (env : Env) (database : Database S) (runtime : Runtime) (request : Request)
    (run_id : String) where
  estimate_items-store :
      (items : List ExecutablePlanItem) (before after : Session S) {u : Unit {0}}
      → estimate_items env database runtime request run_id items before ≡ (ok u, after)
      → after.store ≡ before.store
  unfolding estimate_items
  estimate_items-store [] before after h = cc
  estimate_items-store (item ∷ items) before after h =
      let (found, s₁, h₁, k₁) =
        >>=-eq-ok (lift (render_item env database runtime request run_id item)) _ before h in
      let (made, same) = lift-eq-ok _ before h₁ in
      let (u, s₂, h₂, k₂) =
        >>=-eq-ok (append_step (step_of item found.1 none))
          (λ done. estimate_items env database runtime request run_id items) s₁ k₁ in
      let appended : s₂.store ≡ s₁.store = cc in
      estimate_items-store items s₂ after k₂ ∙ (appended ∙ ap (λ s. s.store) (sym same))

-- What a dry run does to the store that its transaction sees: it is made serializable and read-only.
pub record IsReadOnly {S : Type 0} (database : Database S) (before after : S) : Type 0 where
  pub serial : S
  pub serializable : database.set isolation_level_serializable before ≡ ok serial
  pub read_only : database.set transaction_read_only serial ≡ ok after

module _ {S : Type 0} (env : Env) (database : Database S) (runtime : Runtime) (request : Request)
    (plan : RemediationPlan) (evaluation : EvalReport) (report : QualitySuiteReport)
    (draw : ApplyDraw) (run_id : String) (admission : Option ApplyAdmission) where
  mode-IsReadOnly :
      (before after : Session S) {u : Unit {0}}
      → set_controlled_transaction_mode database true before ≡ (ok u, after)
      → IsReadOnly database before.store after.store
  unfolding set_controlled_transaction_mode
  mode-IsReadOnly before after h =
      let (u, s₁, h₁, k₁) =
        >>=-eq-ok (on_store (database.set isolation_level_serializable)) _ before h in
      let (serial, first, same) =
        on_store-eq-ok (database.set isolation_level_serializable) before h₁ in
      let (end, second, same') = on_store-eq-ok (database.set transaction_read_only) s₁ k₁ in
      record {
        serial = s₁.store;
        serializable = first ∙ ap (λ s. ok s.store) same;
        read_only = second ∙ ap (λ s. ok s.store) same';
      }

  pub dry_run_statements-IsReadOnly :
      (before after : Session S) (done : Concluded)
      → dry_run_statements env database runtime request plan evaluation report draw run_id admission
          before
        ≡ (ok done, after)
      → IsReadOnly database before.store after.store
  unfolding dry_run_statements
  dry_run_statements-IsReadOnly before after done h =
      let (u₁, s₁, h₁, k₁) = >>=-eq-ok (set_controlled_transaction_mode database true) _ before h in
      let (u₂, s₂, h₂, k₂) =
        >>=-eq-ok (check_targets (resolve_item env database) (executable_items plan.items)) _ s₁
          k₁ in
      let same₂ =
        (check_targets-unchanged (resolve_item env database) (executable_items plan.items) s₁ s₂
          h₂).0 in
      let (u₃, s₃, h₃, k₃) =
        >>=-eq-ok
          (recheck_plan env database runtime request plan evaluation report draw run_id
            Refusing.dry_run)
          _ s₂ k₂ in
      let same₃ =
        recheck_plan-eq-ok env database runtime request plan evaluation report draw run_id
          Refusing.dry_run s₂ s₃ h₃ in
      let (u₄, s₄, h₄, k₄) =
        >>=-eq-ok (estimate_items env database runtime request run_id (executable_items plan.items))
          _ s₃ k₃ in
      let same₄ =
        estimate_items-store env database runtime request run_id (executable_items plan.items) s₃ s₄
          h₄ in
      let end : s₄.store ≡ after.store = ap (λ r. r.1.store) k₄ in
      subst (IsReadOnly database before.store)
        (ap (λ s. s.store) (same₂ ∙ same₃) ∙ (sym same₄ ∙ end)) (mode-IsReadOnly before s₁ h₁)
