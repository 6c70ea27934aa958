-- ===== src/Apply/Paced.antt =====
-- apply/executor.py: the stores that a mutation goes through, each under the deadline armed for it.
use airflow_dq_agent.Prelude.{
  ℕ, suc, String, ◌≡◌, ap, subst, Bool, true, false, List, [], ◌∷◌, Option,
}
use airflow_dq_agent.Errors.{Result, ok, err}
use airflow_dq_agent.Contracts.Value.{ℤ}
use airflow_dq_agent.Contracts.Plan.{ExecutablePlanItem}
use airflow_dq_agent.Contracts.Decision.{ApplyAdmission}
use airflow_dq_agent.Actions.{GovernedAction, mutates, render_action}
use airflow_dq_agent.Actions.Registered.{get_governed_action}
use airflow_dq_agent.Actions.Render.{RenderedStep}
use airflow_dq_agent.Environment.{Env}
use airflow_dq_agent.Apply.Authority.{Runtime, Request, read_apply_clock}
use airflow_dq_agent.Apply.Deadline.{IsLive, IsArmed}
use airflow_dq_agent.Apply.Session.{Session}
use airflow_dq_agent.Apply.Progress.{Applies, finished, next}
use airflow_dq_agent.Apply.Progress.Counted.{IsItemApplied-IsCounted}
use airflow_dq_agent.Apply.Transaction.{mutate, executed}
use airflow_dq_agent.Warehouse.{Database, statement_timeout, lock_timeout}

module _ {S : Type 0} (env : Env) (database : Database S) (runtime : Runtime) (request : Request)
    (run_id : String) (admission : ApplyAdmission) where
  -- Both timeouts are set to what the clock's reading after `tick` others leaves of the admission: a
  -- positive number of milliseconds, at a reading that is not behind the expiry.
  pub record ArmedAt (tick : ℕ) (before after : S) : Type 0 where
    pub remaining : ℕ
    pub live : IsLive runtime admission (read_apply_clock runtime request tick) remaining
    pub bounded : S
    pub statement_bounded : database.set (statement_timeout remaining) before ≡ ok bounded
    pub lock_bounded : database.set (lock_timeout remaining) bounded ≡ ok after

  -- The statement of an action that mutates is executed; one that mutates nothing executes none.
  abbrev pub HasRun : Bool → RenderedStep → S → S → Type 0
  HasRun true rendered before after =
      (rowcount : Option ℤ) × (database.execute rendered.sql rendered.params before
        ≡ ok (rowcount, after))
  HasRun false rendered before after = before ≡ after

  pub record Executes (item : ExecutablePlanItem) (before after : S) : Type 0 where
    pub action : GovernedAction
    pub rendered : RenderedStep
    pub governed : get_governed_action item.action_id ≡ ok action
    pub renders : render_action env action item.table item.params run_id ≡ ok rendered
    pub effect : HasRun (mutates action) rendered before after

  -- The items, one after the other: for each the clock is read once, both timeouts are set by that
  -- reading, and on the store which that leaves the item's statement is executed, and nothing else.
  pub data Paced : List ExecutablePlanItem → ℕ → S → S → Type 0 where
    ended : (tick : ℕ) (s : S) → Paced [] tick s s
    round :
        (item : ExecutablePlanItem) (items : List ExecutablePlanItem) (tick : ℕ)
        (before armed executed after : S)
        → ArmedAt tick before armed
        → Executes item armed executed
        → Paced items (suc tick) executed after
        → Paced (item ∷ items) tick before after

  pub IsArmed-ArmedAt :
      (before after : Session S)
      → IsArmed runtime request admission database before after
      → ArmedAt before.ticks before.store after.store
  IsArmed-ArmedAt before after d = record {
    remaining = d.remaining;
    live = d.live;
    bounded = d.bounded;
    statement_bounded = d.statement_bounded;
    lock_bounded = d.lock_bounded;
  }

  executed-effect :
      (rendered : RenderedStep) (s : Session S) (r : Result (Option ℤ × S)) {rowcount : Option ℤ}
      {s' : Session S}
      → executed database s r ≡ (ok rowcount, s')
      → (n : Option ℤ) × (r ≡ ok (n, s'.store))
  executed-effect rendered s (ok (n, t)) h =
      (n, ap (λ (u : Session S). ok (n, u.store)) (ap (λ p. p.1) h))
  executed-effect rendered s (err e) h = cc

  mutate-effect :
      (mutating : Bool) (rendered : RenderedStep) (s : Session S) {rowcount : Option ℤ}
      {s' : Session S}
      → mutate database mutating rendered s ≡ (ok rowcount, s')
      → HasRun mutating rendered s.store s'.store
  mutate-effect true rendered s h =
      executed-effect rendered s (database.execute rendered.sql rendered.params s.store) h
  mutate-effect false rendered s h = ap (λ p. p.1.store) h

  pub Applies-Paced :
      (items : List ExecutablePlanItem) (before after : Session S)
      → Applies env database runtime request run_id admission items before after
      → Paced items before.ticks before.store after.store
  Applies-Paced items before after (finished s) = ended s.ticks s.store
  Applies-Paced items before after (next item rest b middle a first others) =
      let counted =
        IsItemApplied-IsCounted env database runtime request run_id admission item b middle first in
      let same : first.mutated.store ≡ middle.store = ap (λ p. p.1.store) first.ended in
      let effect =
        subst (HasRun (mutates first.action) first.rendered first.armed.store) same
          (mutate-effect (mutates first.action) first.rendered first.armed first.mutation) in
      round item rest b.ticks b.store first.armed.store middle.store a.store
        (IsArmed-ArmedAt b first.armed first.deadline)
        (record {
          action = first.action;
          rendered = first.rendered;
          governed = first.governed;
          renders = first.renders;
          effect = effect;
        })
        (subst (λ tick. Paced rest tick middle.store a.store) counted.ticks
          (Applies-Paced rest middle a others))
