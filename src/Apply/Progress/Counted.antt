-- ===== src/Apply/Progress/Counted.antt =====
-- apply/executor.py: the clock readings and the steps of the loop that applies the items.
use airflow_dq_agent.Prelude.{
  ℕ, suc, ◌+◌, ◌≤◌, ◌<◌, String, ◌≡◌, refl, sym, ap, subst, ◌∙◌, Bool, true, false, List, [], ◌∷◌,
  ◌++◌, Option, length, arith, ltb, Bool-cases, ◌⊎◌, inl, inr,
}
use mathlib.Core.List.{append-nil, append_assoc}
use airflow_dq_agent.Errors.{Result, ok, err}
use airflow_dq_agent.Contracts.Value.{ℤ}
use airflow_dq_agent.Contracts.Plan.{ExecutablePlanItem}
use airflow_dq_agent.Contracts.Decision.{ApplyAdmission}
use airflow_dq_agent.Actions.{mutates}
use airflow_dq_agent.Actions.Render.{RenderedStep}
use airflow_dq_agent.Environment.{Env}
use airflow_dq_agent.Apply.Results.{AppliedStep}
use airflow_dq_agent.Apply.Authority.{Runtime, Request}
use airflow_dq_agent.Apply.Deadline.{LiveAt}
use airflow_dq_agent.Apply.Session.{Session}
use airflow_dq_agent.Apply.Progress.{IsStepOf, AreStepsOf, IsItemApplied, Applies, finished, next}
use airflow_dq_agent.Apply.Transaction.{mutate, executed, step_of}
use airflow_dq_agent.Warehouse.{Database}

pub first_or_later : (first tick : ℕ) → first ≤ tick → (first ≡ tick) ⊎ (suc first ≤ tick)
first_or_later first tick h = elim (Bool-cases (ltb first tick)) [
  | inl e ↦ inr (ground arith)
  | inr e ↦ inl (ground arith)
]

module _ {S : Type 0} where
  -- Neither the readings nor the steps.
  abbrev Keeps : Session S → Session S → Type 0
  Keeps s s' = (s'.ticks ≡ s.ticks) × (s'.steps ≡ s.steps)

  executed-Keeps :
      (database : Database S) (s : Session S) (r : Result (Option ℤ × S)) {rowcount : Option ℤ}
      {s' : Session S}
      → executed database s r ≡ (ok rowcount, s')
      → Keeps s s'
  executed-Keeps database s (ok (n, t)) h = (cc, cc)
  executed-Keeps database s (err e) h = cc

  mutate-Keeps :
      (database : Database S) (mutating : Bool) (rendered : RenderedStep) (s : Session S)
      {rowcount : Option ℤ} {s' : Session S}
      → mutate database mutating rendered s ≡ (ok rowcount, s')
      → Keeps s s'
  mutate-Keeps database true rendered s h =
      executed-Keeps database s (database.execute rendered.sql rendered.params s.store) h
  mutate-Keeps database false rendered s h = (cc, cc)

module _ {S : Type 0} (env : Env) (database : Database S) (runtime : Runtime) (request : Request)
    (run_id : String) (admission : ApplyAdmission) where
  -- One round takes one reading, which is live, and appends the item's step.
  pub record IsCounted (item : ExecutablePlanItem) (before after : Session S) : Type 0 where
    pub ticks : after.ticks ≡ suc before.ticks
    pub live : LiveAt runtime request admission before.ticks
    pub step : AppliedStep
    pub steps : after.steps ≡ before.steps ++ (step ∷ [])
    pub own : IsStepOf env run_id item step

  pub IsItemApplied-IsCounted :
      (item : ExecutablePlanItem) (before after : Session S)
      → IsItemApplied env database runtime request run_id admission item before after
      → IsCounted item before after
  IsItemApplied-IsCounted item before after applied =
      let kept =
        mutate-Keeps database (mutates applied.action) applied.rendered applied.armed
          applied.mutation in
      let step = step_of item applied.rendered applied.rowcount in
      let end : record applied.mutated { steps = applied.mutated.steps ++ (step ∷ []) } ≡ after =
        ap (λ r. r.1) applied.ended in
      record {
        ticks = sym (ap (λ s. s.ticks) end) ∙ (kept.0 ∙ applied.deadline.ticks);
        live = (applied.deadline.remaining, applied.deadline.live);
        step = step;
        steps =
            sym (ap (λ s. s.steps) end)
            ∙ ap (λ xs. xs ++ (step ∷ [])) (kept.1 ∙ applied.deadline.steps);
        own = record {
          action = applied.action;
          governed = applied.governed;
          rendered = applied.renders;
          estimated = refl;
        };
      }

  -- What the whole loop has done to the session.
  pub record IsThrough (items : List ExecutablePlanItem) (before after : Session S) : Type 0 where
    pub ticks : after.ticks ≡ before.ticks + length items
    pub live :
        (tick : ℕ)
        → before.ticks ≤ tick
        → tick < after.ticks
        → LiveAt runtime request admission tick
    pub added : List AppliedStep
    pub steps : after.steps ≡ before.steps ++ added
    pub own : AreStepsOf env run_id items added

  pub live_at :
      {first second last : ℕ}
      → second ≡ suc first
      → LiveAt runtime request admission first
      → ((tick : ℕ) → second ≤ tick → tick < last → LiveAt runtime request admission tick)
      → (tick : ℕ) → first ≤ tick
      → tick < last
      → LiveAt runtime request admission tick
  live_at {first = first} same now later tick low high = elim (first_or_later first tick low) [
    | inl e ↦ subst (LiveAt runtime request admission) e now
    | inr le ↦ later tick (subst (λ n. n ≤ tick) (sym same) le) high
  ]

  pub live_to :
      {first last end : ℕ}
      → end ≡ suc last
      → LiveAt runtime request admission last
      → ((tick : ℕ) → first ≤ tick → tick < last → LiveAt runtime request admission tick)
      → (tick : ℕ) → first ≤ tick
      → tick < end
      → LiveAt runtime request admission tick
  live_to {last = last} same now before tick low high =
      elim (first_or_later tick last (omega arith)) [
        | inl e ↦ subst (LiveAt runtime request admission) (sym e) now
        | inr le ↦ before tick low (omega arith)
      ]

  pub Applies-IsThrough :
      (items : List ExecutablePlanItem) (before after : Session S)
      → Applies env database runtime request run_id admission items before after
      → IsThrough items before after
  Applies-IsThrough items before after (finished s) = record {
    ticks = omega arith;
    live = λ tick low high. absurd (omega arith);
    added = [];
    steps = sym (append-nil s.steps);
    own = tt;
  }
  Applies-IsThrough items before after (next item rest b middle a first others) =
      let one = IsItemApplied-IsCounted item b middle first in
      let more = Applies-IsThrough rest middle a others in
      record {
        ticks = more.ticks ∙ (ap (λ n. n + length rest) one.ticks ∙ omega arith);
        live = λ tick low high. live_at one.ticks one.live more.live tick low high;
        added = one.step ∷ more.added;
        steps =
            more.steps
            ∙ (ap (λ xs. xs ++ more.added) one.steps
                ∙ append_assoc b.steps (one.step ∷ []) more.added);
        own = (one.own, more.own);
      }
