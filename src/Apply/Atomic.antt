-- ===== src/Apply/Atomic.antt =====
-- apply/executor.py: the store that apply_plan leaves behind.
use airflow_dq_agent.Prelude.{
  ℕ, suc, ◌≡◌, refl, sym, subst, ◌∙◌, Bool, true, false, List, [], Option, none, some, ◌⊎◌, inl,
  inr,
}
use airflow_dq_agent.Errors.{Result, ok, err, >>=-eq-ok}
use airflow_dq_agent.Contracts.Report.{QualitySuiteReport}
use airflow_dq_agent.Contracts.Plan.{RemediationPlan}
use airflow_dq_agent.Contracts.Evaluation.{EvalReport}
use airflow_dq_agent.Contracts.Decision.{ApplyAdmission}
use airflow_dq_agent.Environment.{Env}
use airflow_dq_agent.Apply.Results.{AppliedStep, Concluded}
use airflow_dq_agent.Apply.Authority.{
  Runtime, Request, require_plan_admission, require_dry_run, require_apply_warehouse_environment,
}
use airflow_dq_agent.Apply.Execution.{
  World, Trail, Ended, transaction, raised, run_apply, admitted_before, admitted_or_refused,
  audited, after_dry_run, run_dry_run, dry_run_or_refused, apply_plan, resolved_run_id, read,
}
use airflow_dq_agent.Apply.DryRun.{IsReadOnly, dry_run_statements-IsReadOnly}
use airflow_dq_agent.Apply.Session.{Session, Statement}
use airflow_dq_agent.Apply.Transaction.{ApplyDraw, apply_statements, dry_run_statements}
use airflow_dq_agent.Apply.Transacted.{IsTransacted, apply_statements-IsTransacted}
use airflow_dq_agent.Warehouse.{Database}
use airflow_dq_agent.Apply.Effective.{
  raised-store, IsEffective, transaction-cases, after_apply-store,
}

module _ {S T : Type 0} (env : Env) (database : Database S) (trail : Trail T) (runtime : Runtime)
    (request : Request) (plan : RemediationPlan) (evaluation : EvalReport)
    (report : QualitySuiteReport) (draw : ApplyDraw) where
  abbrev pub body : ApplyAdmission → Statement S Concluded
  body admission =
      apply_statements env database runtime request plan evaluation report draw
        (resolved_run_id env database trail runtime request plan evaluation report draw) admission

  run_apply-cases :
      (admission : ApplyAdmission) (w : World S T)
      → ((run_apply env database trail runtime request plan evaluation report draw admission
            w).1.store
          ≡ w.store)
        ⊎ (ended : Ended S) × IsEffective env database trail runtime request plan evaluation report
            draw
            (body admission)
            w.store
            w.ticks
            ended
          × ((run_apply env database trail runtime request plan evaluation report draw admission
                w).1.store
              ≡ ended.store)
  unfolding run_apply
  run_apply-cases admission w =
      let ended =
        transaction env database trail runtime request plan evaluation report draw (body admission)
          w.store w.ticks in
      let stored =
        after_apply-store env database trail runtime request plan evaluation report draw admission
          w.trail ended.outcome ended.store ended.ticks ended.steps in
      elim (transaction-cases env database trail runtime request plan evaluation report draw
        (body admission) w.store w.ticks) [
          | inl (same, (e, raised)) ↦ inl (stored ∙ same)
          | inr effective ↦ inr (ended, effective, stored)
        ]

  -- An authorized mutation, committed as a whole.
  pub record IsCommitted (admission : ApplyAdmission) (before after : World S T) : Type 0 where
    pub same_warehouse : require_apply_warehouse_environment runtime request plan admission ≡ ok tt
    pub begun : S
    pub begins : database.begin before.store ≡ ok begun
    pub done : Concluded
    pub session : Session S
    pub transacted :
        IsTransacted env database runtime request plan evaluation report draw
          (resolved_run_id env database trail runtime request plan evaluation report draw)
          admission
          (record { store = begun; ticks = suc before.ticks; steps = [] })
          session
          done
    pub store : after.store ≡ session.store

  pub run_apply-IsCommitted :
      (admission : ApplyAdmission) (w : World S T) (ended : Ended S) (after : World S T)
      → require_apply_warehouse_environment runtime request plan admission ≡ ok tt
      → (effective : IsEffective env database trail runtime request plan evaluation report draw
          (body admission)
          w.store
          (suc w.ticks)
          ended)
      → after.store ≡ ended.store
      → (c : IsCommitted admission w after) × (c.done ≡ effective.done)
  run_apply-IsCommitted admission w ended after same h k = (
    record {
      same_warehouse = same;
      begun = h.begun;
      begins = h.begins;
      done = h.done;
      session = h.after;
      transacted =
          apply_statements-IsTransacted env database runtime request plan evaluation report draw
            (resolved_run_id env database trail runtime request plan evaluation report draw)
            admission _ h.after h.done h.ran;
      store = k ∙ h.store;
    },
    refl,
  )

  pub admitted_before-same_warehouse :
      (admission : ApplyAdmission) (ticks : ℕ) {late : Bool}
      → admitted_before env database trail runtime request plan evaluation report draw admission
          ticks
        ≡ ok late
      → require_apply_warehouse_environment runtime request plan admission ≡ ok tt
  admitted_before-same_warehouse admission ticks h =
      let (u, authorized, h₁) =
        >>=-eq-ok (require_plan_admission env plan evaluation report admission) _ h in
      (>>=-eq-ok (require_apply_warehouse_environment runtime request plan admission) _ h₁).1

  apply_admitted-cases :
      (admission : ApplyAdmission) (w : World S T) (m : Result Bool)
      → admitted_before env database trail runtime request plan evaluation report draw admission
          w.ticks
        ≡ m
      → let after =
          (admitted_or_refused env database trail runtime request plan evaluation report draw
            admission
            (read env database trail runtime request plan evaluation report draw w)
            m).1 in
        (after.store ≡ w.store) ⊎ IsCommitted admission w after
  apply_admitted-cases admission w (err e) h = inl refl
  apply_admitted-cases admission w (ok true) h = inl refl
  apply_admitted-cases admission w (ok false) h =
      elim (run_apply-cases admission (record w { ticks = suc w.ticks })) [
        | inl same ↦ inl same
        | inr (ended, effective, stored) ↦
            inr
              (run_apply-IsCommitted admission w ended _
                (admitted_before-same_warehouse admission w.ticks h) effective stored).0
      ]

  audited-store :
      (admission : Option ApplyAdmission) (done : Concluded) (steps : List AppliedStep) (s : S)
      (ticks : ℕ) (r : Result (Unit {0}) × T)
      → (audited env database trail runtime request plan evaluation report draw admission done steps
          s ticks r).1.store
        ≡ s
  audited-store admission done steps s ticks (ok u, t) = refl
  audited-store admission done steps s ticks (err e, t) =
      raised-store env database trail runtime request plan evaluation report draw e _ s ticks

  after_dry_run-store :
      (admission : Option ApplyAdmission) (t : T) (outcome : Result Concluded) (s : S) (ticks : ℕ)
      (steps : List AppliedStep)
      → (after_dry_run env database trail runtime request plan evaluation report draw admission t
          outcome s ticks steps).1.store
        ≡ s
  after_dry_run-store admission t (err e) s ticks steps =
      raised-store env database trail runtime request plan evaluation report draw e _ s ticks
  after_dry_run-store admission t (ok done) s ticks steps =
      audited-store admission done steps s ticks (trail.append_event done.1 t)

  -- A dry run, whose transaction was only made read-only.
  pub record IsDryRun (before after : World S T) : Type 0 where
    pub begun : S
    pub begins : database.begin before.store ≡ ok begun
    pub read_only : IsReadOnly database begun after.store

  run_dry_run-cases :
      (admission : Option ApplyAdmission) (w : World S T)
      → let after =
          (run_dry_run env database trail runtime request plan evaluation report draw admission
            w).1 in
        (after.store ≡ w.store) ⊎ IsDryRun w after
  unfolding run_dry_run
  run_dry_run-cases admission w =
      let statements =
        dry_run_statements env database runtime request plan evaluation report draw
          (resolved_run_id env database trail runtime request plan evaluation report draw)
          admission in
      let ended =
        transaction env database trail runtime request plan evaluation report draw statements
          w.store w.ticks in
      let stored =
        after_dry_run-store admission w.trail ended.outcome ended.store ended.ticks ended.steps in
      elim (transaction-cases env database trail runtime request plan evaluation report draw
        statements w.store w.ticks) [
          | inl (same, (e, raised)) ↦ inl (stored ∙ same)
          | inr effective ↦ inr (record {
            begun = effective.begun;
            begins = effective.begins;
            read_only =
                subst (IsReadOnly database effective.begun) (sym (stored ∙ effective.store)) (
                  dry_run_statements-IsReadOnly env database runtime request plan evaluation report
                    draw
                    (resolved_run_id env database trail runtime request plan evaluation report draw)
                    admission _ effective.after effective.done effective.ran);
          })
        ]

  dry_run_or_refused-cases :
      (admission : Option ApplyAdmission) (w : World S T) (m : Result (Unit {0}))
      → let after =
          (dry_run_or_refused env database trail runtime request plan evaluation report draw
            admission
            (read env database trail runtime request plan evaluation report draw w)
            m).1 in
        (after.store ≡ w.store) ⊎ IsDryRun w after
  dry_run_or_refused-cases admission w (err e) = inl refl
  dry_run_or_refused-cases admission w (ok u) =
      elim (run_dry_run-cases admission (record w { ticks = suc w.ticks })) [
        | inl same ↦ inl same
        | inr done ↦
            inr (record { begun = done.begun; begins = done.begins; read_only = done.read_only })
      ]

  -- What `apply_plan` may do to the store: in a dry run, make it read-only; else, commit the whole of
  -- an authorized mutation.
  pub data HasEffect : Bool → Option ApplyAdmission → World S T → World S T → Type 0 where
    tried :
        (admission : Option ApplyAdmission) (before after : World S T)
        → IsDryRun before after
        → HasEffect true admission before after
    applied :
        (admission : ApplyAdmission) (before after : World S T)
        → IsCommitted admission before after
        → HasEffect false (some admission) before after

  pub HasEffect-IsCommitted :
      (admission : ApplyAdmission) (before after : World S T)
      → HasEffect false (some admission) before after
      → IsCommitted admission before after
  HasEffect-IsCommitted admission before after (applied a b c h) = h

  -- Whether it returns or raises, `apply_plan` leaves the store as it was, or else ran a whole
  -- transaction. In a dry run that transaction was made serializable and read-only, and executed no
  -- statement of an item. In a mutation there is an admission; the connection is to the warehouse of
  -- plan and admission; and the transaction, serializable, verified the authority again, found the
  -- admission unused and every target set unchanged in one snapshot, armed a live deadline before the
  -- snapshot, before each item and before the recording, applied the items in order, and recorded the
  -- result last.
  pub apply_plan-atomic :
      (dry_run : Bool) (admission : Option ApplyAdmission) (w : World S T)
      → let after =
          (apply_plan env database trail runtime request plan evaluation report draw dry_run
            admission w).1 in
        (after.store ≡ w.store) ⊎ HasEffect dry_run admission w after
  unfolding apply_plan
  apply_plan-atomic true admission w =
      elim (dry_run_or_refused-cases admission w (require_dry_run env plan evaluation report)) [
        | inl same ↦ inl same
        | inr done ↦ inr (tried admission w _ done)
      ]
  apply_plan-atomic false none w = inl refl
  apply_plan-atomic false (some admission) w = elim (apply_admitted-cases admission w _ refl) [
    | inl same ↦ inl same
    | inr done ↦ inr (applied admission w _ done)
  ]
