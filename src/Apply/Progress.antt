-- ===== src/Apply/Progress.antt =====
-- apply/executor.py: the loop that applies the items, as a relation on sessions.
pub mod Counted
use airflow_dq_agent.Prelude.{
  ℕ, suc, ◌+◌, ◌≤◌, ◌<◌, String, ◌≡◌, refl, sym, ap, subst, ◌∙◌, Bool, true, false, List, [], ◌∷◌,
  ◌++◌, Option, none, some, length, arith, ◌⊎◌, inl, inr,
}
use airflow_dq_agent.Errors.{Result, ok, err}
use airflow_dq_agent.Contracts.Value.{ℤ, pos}
use airflow_dq_agent.Contracts.Plan.{ExecutablePlanItem}
use airflow_dq_agent.Contracts.Decision.{ApplyAdmission}
use airflow_dq_agent.Actions.{GovernedAction, mutates, render_action}
use airflow_dq_agent.Actions.Registered.{get_governed_action}
use airflow_dq_agent.Actions.Render.{RenderedStep}
use airflow_dq_agent.Environment.{Env}
use airflow_dq_agent.Apply.Results.{AppliedStep}
use airflow_dq_agent.Apply.Authority.{Runtime, Request, read_apply_clock}
use airflow_dq_agent.Apply.Deadline.{LiveAt, IsArmed, arm-IsArmed}
use airflow_dq_agent.Apply.Session.{Session, lift, append_step, ◌>>◌}
use airflow_dq_agent.Apply.Session.Inversion.{>>=-eq-ok, lift-eq-ok}
use airflow_dq_agent.Apply.Transaction.{
  arm_admission_deadline, mutate, step_of, render_item, apply_item, apply_items, rendered_by,
  rendered_with,
}
use airflow_dq_agent.Warehouse.{Database}

-- What the step of an item is: the item rendered by its governed action for the run, with the rows
-- that were approved as its estimate, and no row changed unless the action mutates.
pub record IsStepOf (env : Env) (run_id : String) (item : ExecutablePlanItem) (step : AppliedStep)
    : Type 0 where
  pub action : GovernedAction
  pub governed : get_governed_action item.action_id ≡ ok action
  pub rendered : render_action env action item.table item.params run_id ≡ ok step.rendered
  pub estimated : step.estimated_rows ≡ some (pos item.target_set.count)

-- One step for each item, in order.
abbrev pub AreStepsOf : Env → String → List ExecutablePlanItem → List AppliedStep → Type 0
AreStepsOf env run_id [] [] = Unit
AreStepsOf env run_id [] (step ∷ steps) = ⊥
AreStepsOf env run_id (item ∷ items) [] = ⊥
AreStepsOf env run_id (item ∷ items) (step ∷ steps) =
    IsStepOf env run_id item step × AreStepsOf env run_id items steps

rendered_by-eq-ok :
    (action : GovernedAction) (r : Result RenderedStep) {found : GovernedAction × RenderedStep}
    → rendered_by action r ≡ ok found
    → r ≡ ok found.1 × (action ≡ found.0)
rendered_by-eq-ok action (err e) h = cc
rendered_by-eq-ok action (ok step) h = (cc, cc)

rendered_with-eq-ok :
    (g : Result GovernedAction) (render : GovernedAction → Result RenderedStep)
    {found : GovernedAction × RenderedStep}
    → rendered_with g render ≡ ok found
    → (g ≡ ok found.0) × (render found.0 ≡ ok found.1)
rendered_with-eq-ok (err e) render h = cc
rendered_with-eq-ok (ok action) render {found = found} h =
    let (made, same) = rendered_by-eq-ok action (render action) h in
    (ap ok same, subst (λ a. render a ≡ ok found.1) same made)

module _ {S : Type 0} (env : Env) (database : Database S) (runtime : Runtime) (request : Request)
    (run_id : String) (admission : ApplyAdmission) where
  -- One round of the loop: the item is rendered, the deadline is armed, and only then the rendered
  -- statement is executed, if the action mutates.
  pub record IsItemApplied (item : ExecutablePlanItem) (before after : Session S) : Type 0 where
    pub action : GovernedAction
    pub rendered : RenderedStep
    pub governed : get_governed_action item.action_id ≡ ok action
    pub renders : render_action env action item.table item.params run_id ≡ ok rendered
    pub armed : Session S
    pub deadline : IsArmed runtime request admission database before armed
    pub rowcount : Option ℤ
    pub mutated : Session S
    pub mutation : mutate database (mutates action) rendered armed ≡ (ok rowcount, mutated)
    pub ended : append_step (step_of item rendered rowcount) mutated ≡ (ok tt, after)

  pub data Applies : List ExecutablePlanItem → Session S → Session S → Type 0 where
    finished : (s : Session S) → Applies [] s s
    next :
        (item : ExecutablePlanItem) (items : List ExecutablePlanItem)
        (before middle after : Session S)
        → IsItemApplied item before middle
        → Applies items middle after
        → Applies (item ∷ items) before after

  apply_item-IsItemApplied :
      (item : ExecutablePlanItem) (before after : Session S) {u : Unit {0}}
      → apply_item env database runtime request run_id admission item before ≡ (ok u, after)
      → IsItemApplied item before after
  unfolding apply_item
  apply_item-IsItemApplied item before after h =
      let (found, s₁, h₁, k₁) =
        >>=-eq-ok (lift (render_item env database runtime request run_id item)) _ before h in
      let (made, same) = lift-eq-ok _ before h₁ in
      let (governed, renders) = rendered_with-eq-ok (get_governed_action item.action_id) _ made in
      let (done, armed, h₂, k₂) =
        >>=-eq-ok (arm_admission_deadline database runtime request admission) _ s₁ k₁ in
      let (rowcount, mutated, h₃, k₃) =
        >>=-eq-ok (mutate database (mutates found.0) found.1) _ armed k₂ in
      record {
        action = found.0;
        rendered = found.1;
        governed = governed;
        renders = renders;
        armed = armed;
        deadline = arm-IsArmed runtime request admission database before armed (
            subst
              (λ s. arm_admission_deadline database runtime request admission s ≡ (ok done, armed))
              (sym same) h₂);
        rowcount = rowcount;
        mutated = mutated;
        mutation = h₃;
        ended = k₃;
      }

  pub apply_items-Applies :
      (items : List ExecutablePlanItem) (before after : Session S) {u : Unit {0}}
      → apply_items env database runtime request run_id admission items before ≡ (ok u, after)
      → Applies items before after
  unfolding apply_items
  apply_items-Applies [] before after h = subst (λ s. Applies [] before s) (cc) (finished before)
  apply_items-Applies (item ∷ items) before after h =
      let (done, middle, h₁, k₁) =
        >>=-eq-ok (apply_item env database runtime request run_id admission item) _ before h in
      next item items before middle after (apply_item-IsItemApplied item before middle h₁)
        (apply_items-Applies items middle after k₁)
