-- ===== src/Apply/Effective.antt =====
-- apply/executor.py: what one transaction, and the handlers after it, leave in the store.
use airflow_dq_agent.Prelude.{
  ℕ, ◌≡◌, refl, Bool, true, false, List, [], ◌⊎◌, inl, inr, if◌then◌else◌,
}
use airflow_dq_agent.Errors.{Error, Result, ok, err}
use airflow_dq_agent.Contracts.Report.{QualitySuiteReport}
use airflow_dq_agent.Contracts.Plan.{RemediationPlan}
use airflow_dq_agent.Contracts.Evaluation.{EvalReport}
use airflow_dq_agent.Contracts.Decision.{ApplyAdmission}
use airflow_dq_agent.Environment.{Env}
use airflow_dq_agent.Apply.Results.{AppliedStep, ApplyResult, Concluded}
use airflow_dq_agent.Apply.Authority.{Runtime, Request}
use airflow_dq_agent.Apply.Execution.{
  World, Trail, Ended, transaction, start, finish, close, raised, handle_apply, recovered_or,
  is_consumed, is_serialization_failure, is_expired_admission, after_apply,
}
use airflow_dq_agent.Apply.Session.{Session, Statement}
use airflow_dq_agent.Apply.Transaction.{ApplyDraw}
use airflow_dq_agent.Warehouse.{Database, CommitOutcome, committed, aborted, lost}

module _ {S T : Type 0} (env : Env) (database : Database S) (trail : Trail T) (runtime : Runtime)
    (request : Request) (plan : RemediationPlan) (evaluation : EvalReport)
    (report : QualitySuiteReport) (draw : ApplyDraw) where
  abbrev Outcome : Type 0
  Outcome = Result ApplyResult × World S T

  pub raised-store :
      (e : Error) (r : Result (Unit {0}) × T) (s : S) (ticks : ℕ)
      → (raised env database trail runtime request plan evaluation report draw e r s ticks).1.store
        ≡ s
  raised-store e (ok u, t) s ticks = refl
  raised-store e (err f, t) s ticks = refl

  pub either-store :
      (b : Bool) (x y : Outcome) (s : S)
      → x.1.store ≡ s
      → y.1.store ≡ s
      → (if b then x else y).1.store ≡ s
  either-store true x y s h k = h
  either-store false x y s h k = k

  handle_apply-store :
      (admission : ApplyAdmission) (e : Error) (steps : List AppliedStep) (w : World S T)
      → (handle_apply env database trail runtime request plan evaluation report draw admission e
          steps w).1.store
        ≡ w.store
  unfolding handle_apply recovered_or
  handle_apply-store admission e steps w = either-store (is_consumed e) _ _ w.store refl (
      either-store (is_serialization_failure e) _ _ w.store refl
        (either-store (is_expired_admission e) _ _ w.store refl (raised-store e _ w.store w.ticks)))

  -- A transaction that has an effect: its body ran to its end.
  pub record IsEffective (body : Statement S Concluded) (before : S) (ticks : ℕ) (ended : Ended S)
      : Type 0 where
    pub begun : S
    pub begins : database.begin before ≡ ok begun
    pub done : Concluded
    pub after : Session S
    pub ran : body (record { store = begun; ticks = ticks; steps = [] }) ≡ (ok done, after)
    pub store : ended.store ≡ after.store
    pub ticks_after : ended.ticks ≡ after.ticks
    pub outcome : (ended.outcome ≡ ok done) ⊎ ((e : Error) × (ended.outcome ≡ err e))

  -- Or it has none, and raises.
  abbrev pub IsRolledBack : S → Ended S → Type 0
  IsRolledBack before ended = (ended.store ≡ before) × ((e : Error) × (ended.outcome ≡ err e))

  closed :
      (body : Statement S Concluded) (before begun : S) (ticks : ℕ) (done : Concluded)
      (after : Session S) (outcome : CommitOutcome)
      → database.begin before ≡ ok begun
      → body (record { store = begun; ticks = ticks; steps = [] }) ≡ (ok done, after)
      → IsRolledBack before (
          close env database trail runtime request plan evaluation report draw before done after
            outcome)
        ⊎ IsEffective body before ticks (
            close env database trail runtime request plan evaluation report draw before done after
              outcome)
  closed body before begun ticks done after committed b h = inr (record {
    begun = begun;
    begins = b;
    done = done;
    after = after;
    ran = h;
    store = refl;
    ticks_after = refl;
    outcome = inl refl;
  })
  closed body before begun ticks done after (aborted e) b h = inl (refl, (e, refl))
  closed body before begun ticks done after (lost e) b h = inr (record {
    begun = begun;
    begins = b;
    done = done;
    after = after;
    ran = h;
    store = refl;
    ticks_after = refl;
    outcome = inr (e, refl);
  })

  finished :
      (body : Statement S Concluded) (before begun : S) (ticks : ℕ)
      (r : Result Concluded × Session S)
      → database.begin before ≡ ok begun
      → body (record { store = begun; ticks = ticks; steps = [] }) ≡ r
      → IsRolledBack before
          (finish env database trail runtime request plan evaluation report draw before r)
        ⊎ IsEffective body before ticks
            (finish env database trail runtime request plan evaluation report draw before r)
  finished body before begun ticks (err e, after) b h = inl (refl, (e, refl))
  finished body before begun ticks (ok done, after) b h =
      closed body before begun ticks done after (database.commit after.store) b h

  started :
      (body : Statement S Concluded) (before : S) (ticks : ℕ) (r : Result S)
      → database.begin before ≡ r
      → IsRolledBack before
          (start env database trail runtime request plan evaluation report draw body before ticks r)
        ⊎ IsEffective body before ticks (
            start env database trail runtime request plan evaluation report draw body before ticks
              r)
  started body before ticks (err e) b = inl (refl, (e, refl))
  started body before ticks (ok begun) b = finished body before begun ticks _ b refl

  pub transaction-cases :
      (body : Statement S Concluded) (before : S) (ticks : ℕ)
      → IsRolledBack before (
          transaction env database trail runtime request plan evaluation report draw body before
            ticks)
        ⊎ IsEffective body before ticks (
            transaction env database trail runtime request plan evaluation report draw body before
              ticks)
  unfolding transaction
  transaction-cases body before ticks = started body before ticks (database.begin before) refl

  pub after_apply-store :
      (admission : ApplyAdmission) (t : T) (outcome : Result Concluded) (s : S) (ticks : ℕ)
      (steps : List AppliedStep)
      → (after_apply env database trail runtime request plan evaluation report draw admission t
          outcome s ticks steps).1.store
        ≡ s
  after_apply-store admission t (ok done) s ticks steps = refl
  after_apply-store admission t (err e) s ticks steps = handle_apply-store admission e steps _
