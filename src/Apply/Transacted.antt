-- ===== src/Apply/Transacted.antt =====
-- apply/executor.py: what the statements of a mutation have gone through when they end well.
use airflow_dq_agent.Prelude.{
  String, ◌≡◌, sym, ap, subst, ◌∙◌, true, false, not, List, [], ◌∷◌, some, arith, ◌==◌, All,
  not-false, &&-eq-true, ==→≡, nat_eq,
}
use airflow_dq_agent.Errors.{
  Result, ok, err, permission_error, Refusing, targets_changed, refuse_if, integrity_error,
  key_error, value_error, policy_refusal, type_error, runtime_error, database_error, overflow_error,
}
use airflow_dq_agent.Contracts.Report.{QualitySuiteReport}
use airflow_dq_agent.Contracts.Plan.{
  TargetSet, ExecutablePlanItem, RemediationPlan, executable_items,
}
use airflow_dq_agent.Contracts.Evaluation.{EvalReport}
use airflow_dq_agent.Contracts.Decision.{ApplyAdmission}
use airflow_dq_agent.Environment.{Env}
use airflow_dq_agent.Planning.Integrity.{verify_plan_integrity}
use airflow_dq_agent.Planning.Integrity.Verified.{refuse_if-ok}
use airflow_dq_agent.Planning.Targets.{lock_and_resolve}
use airflow_dq_agent.Apply.Results.{Concluded, apply_record}
use airflow_dq_agent.Apply.Authority.{Runtime, Request, require_plan_admission}
use airflow_dq_agent.Apply.Deadline.{IsArmed, arm-IsArmed}
use airflow_dq_agent.Apply.Session.{Session, lift, on_query, Statement, ◌>>=◌}
use airflow_dq_agent.Apply.Session.Inversion.{
  >>=-eq-ok, lift-eq-ok, on_store-eq-ok, on_query-eq-ok, with_store,
}
use airflow_dq_agent.Apply.Progress.{apply_items-Applies, Applies}
use airflow_dq_agent.Apply.Transaction.{
  ApplyDraw, set_controlled_transaction_mode, arm_admission_deadline, refuse_consumed_admission,
  check_targets, target_eq, apply_items, apply_statements, result_of, event_of, record_apply_result,
  consumed, consumed_on_conflict, concluded, recheck_plan, conclude,
}
use airflow_dq_agent.Warehouse.{Database, isolation_level_serializable}

target_eq→≡ : (a b : TargetSet) → target_eq a b ≡ true → a ≡ b
target_eq→≡ a b h =
    let both = &&-eq-true (nat_eq a.count b.count) (a.fingerprint == b.fingerprint) h in
    let counts : a.count ≡ b.count = ground arith in
    let fingerprints = ==→≡ a.fingerprint b.fingerprint both.1 in cc (counts, fingerprints)

abbrev value_or : Concluded → Result Concluded → Concluded
value_or d (ok e) = e
value_or d (err e) = d

module _ {S : Type 0} where
  -- Every item's targets are resolved again in one store, and are those of the plan.
  pub check_targets-unchanged :
      (resolve : ExecutablePlanItem → S → Result TargetSet) (items : List ExecutablePlanItem)
      (before after : Session S) {u : Unit {0}}
      → check_targets resolve items before ≡ (ok u, after)
      → (before ≡ after) × All (λ item. resolve item before.store ≡ ok item.target_set) items
  unfolding check_targets
  check_targets-unchanged resolve [] before after h = (cc, tt)
  check_targets-unchanged resolve (item ∷ items) before after h =
      let (actual, s₁, h₁, k₁) = >>=-eq-ok (on_query (resolve item)) _ before h in
      let (resolved, same) = on_query-eq-ok (resolve item) before h₁ in
      let (done, s₂, h₂, k₂) =
        >>=-eq-ok
          (lift (
            refuse_if (not (target_eq actual item.target_set))
              (permission_error Refusing.apply targets_changed)))
          _ s₁ k₁ in
      let (unchanged, same') = lift-eq-ok _ s₁ h₂ in
      let equal = target_eq→≡ actual item.target_set (not-false _ (refuse_if-ok _ _ unchanged)) in
      let eq : s₂ ≡ before = sym (same ∙ same') in
      let rest = check_targets-unchanged resolve items s₂ after k₂ in
      (
        sym eq ∙ rest.0,
        (
          resolved ∙ ap ok equal,
          subst (λ s. All (λ i. resolve i s.store ≡ ok i.target_set) items) eq rest.1,
        ),
      )

module _ {S : Type 0} (env : Env) (database : Database S) (runtime : Runtime) (request : Request)
    (plan : RemediationPlan) (evaluation : EvalReport) (report : QualitySuiteReport)
    (draw : ApplyDraw) (run_id : String) where
  pub recheck_plan-eq-ok :
      (refusing : Refusing) (before after : Session S) {u : Unit {0}}
      → recheck_plan env database runtime request plan evaluation report draw run_id refusing before
        ≡ (ok u, after)
      → before ≡ after
  recheck_plan-eq-ok refusing before after h =
      let (u, s₁, h₁, k₁) = >>=-eq-ok (lift (verify_plan_integrity env refusing plan)) _ before h in
      (lift-eq-ok _ before h₁).1 ∙ (lift-eq-ok _ s₁ k₁).1

module _ {S : Type 0} (env : Env) (database : Database S) (runtime : Runtime) (request : Request)
    (plan : RemediationPlan) (evaluation : EvalReport) (report : QualitySuiteReport)
    (draw : ApplyDraw) (run_id : String) (admission : ApplyAdmission) where
  abbrev pub items : List ExecutablePlanItem
  items = executable_items plan.items

  -- A mutation, from the start of its transaction: serializable, under a live deadline, with the whole
  -- authority verified again, the admission unused and every target set unchanged in one snapshot;
  -- then the items are applied in order, each under a live deadline of its own; and at last, under
  -- another, the result is recorded.
  pub record IsTransacted (before after : Session S) (done : Concluded) : Type 0 where
    pub serial : S
    pub serializable : database.set isolation_level_serializable before.store ≡ ok serial
    pub snapshot : Session S
    pub first_deadline :
        IsArmed runtime request admission database (with_store before serial) snapshot
    pub authorized : require_plan_admission env plan evaluation report admission ≡ ok tt
    pub unconsumed : database.admission_consumed admission.admission_id snapshot.store ≡ ok false
    pub targets :
        All (λ item. lock_and_resolve env database item snapshot.store ≡ ok item.target_set) items
    pub applied : Session S
    pub applies : Applies env database runtime request run_id admission items snapshot applied
    pub armed : Session S
    pub last_deadline : IsArmed runtime request admission database applied armed
    pub concludes : done ≡ (
      result_of env plan evaluation draw run_id (some admission) false applied.steps,
      event_of env plan evaluation draw run_id (some admission) false applied.steps,
    )
    pub recorded :
        database.record_apply_result (apply_record env done.1 done.0 plan admission) armed.store
        ≡ ok after.store
    pub ticks : after.ticks ≡ armed.ticks
    pub steps : after.steps ≡ applied.steps

  consumed_on_conflict-eq-ok : (r : Result S) {s : S} → consumed_on_conflict r ≡ ok s → r ≡ ok s
  consumed_on_conflict-eq-ok (ok t) h = h
  consumed_on_conflict-eq-ok (err (integrity_error x)) h = cc
  consumed_on_conflict-eq-ok (err (key_error x)) h = cc
  consumed_on_conflict-eq-ok (err (value_error x)) h = cc
  consumed_on_conflict-eq-ok (err (policy_refusal x y)) h = cc
  consumed_on_conflict-eq-ok (err (permission_error x y)) h = cc
  consumed_on_conflict-eq-ok (err type_error) h = cc
  consumed_on_conflict-eq-ok (err (runtime_error x)) h = cc
  consumed_on_conflict-eq-ok (err (database_error x)) h = cc
  consumed_on_conflict-eq-ok (err overflow_error) h = cc

  refuse_consumed_admission-eq-ok :
      (before after : Session S) {u : Unit {0}}
      → refuse_consumed_admission database admission before ≡ (ok u, after)
      → (database.admission_consumed admission.admission_id before.store ≡ ok false)
        × (before ≡ after)
  unfolding refuse_consumed_admission
  refuse_consumed_admission-eq-ok before after h =
      let (used, s₁, h₁, k₁) =
        >>=-eq-ok (on_query (database.admission_consumed admission.admission_id)) _ before h in
      let (asked, same) =
        on_query-eq-ok (database.admission_consumed admission.admission_id) before h₁ in
      let (fresh, same') = lift-eq-ok (refuse_if used consumed) s₁ k₁ in
      (asked ∙ ap ok (refuse_if-ok used consumed fresh), same ∙ same')

  -- What ends the transaction, behind the items.
  record IsConcluded (applied after : Session S) (done : Concluded) : Type 0 where
    armed : Session S
    last_deadline : IsArmed runtime request admission database applied armed
    concludes : done ≡ (
      result_of env plan evaluation draw run_id (some admission) false applied.steps,
      event_of env plan evaluation draw run_id (some admission) false applied.steps,
    )
    recorded :
        database.record_apply_result (apply_record env done.1 done.0 plan admission) armed.store
        ≡ ok after.store
    ticks : after.ticks ≡ armed.ticks
    steps : after.steps ≡ applied.steps

  abbrev recorded_in : Concluded → S → Result S
  recorded_in done s =
      consumed_on_conflict
        (database.record_apply_result (apply_record env done.1 done.0 plan admission) s)

  abbrev recording : Concluded → Statement S (Unit {0})
  recording =
      record_apply_result env database runtime request plan evaluation report draw run_id admission

  abbrev ending : Concluded → Statement S Concluded
  ending = conclude env database runtime request plan evaluation report draw run_id admission

  conclude-IsConcluded :
      (applied after : Session S) (done : Concluded)
      → (concluded env plan evaluation draw run_id (some admission) false >>= ending) applied
        ≡ (ok done, after)
      → IsConcluded applied after done
  conclude-IsConcluded applied after done h =
      let made : Concluded = (
        result_of env plan evaluation draw run_id (some admission) false applied.steps,
        event_of env plan evaluation draw run_id (some admission) false applied.steps,
      ) in
      let (u₁, armed, h₁, k₁) =
        >>=-eq-ok (arm_admission_deadline database runtime request admission) _ applied h in
      let deadline = arm-IsArmed runtime request admission database applied armed h₁ in
      let (u₂, s, h₂, k₂) = >>=-eq-ok (recording made) _ armed k₁ in
      let (store, recorded, same) = on_store-eq-ok (recorded_in made) armed h₂ in
      let same_done : made ≡ done = ap (λ r. value_or made r.0) k₂ in
      let end : with_store armed store ≡ after = same ∙ ap (λ r. r.1) k₂ in
      record {
        armed = armed;
        last_deadline = deadline;
        concludes = sym same_done;
        recorded =
            subst
              (λ d.
                database.record_apply_result (apply_record env d.1 d.0 plan admission) armed.store
                ≡ ok after.store)
              same_done (consumed_on_conflict-eq-ok _ recorded ∙ ap (λ t. ok t.store) end);
        ticks = sym (ap (λ t. t.ticks) end);
        steps = sym (ap (λ t. t.steps) end) ∙ deadline.steps;
      }

  pub apply_statements-IsTransacted :
      (before after : Session S) (done : Concluded)
      → apply_statements env database runtime request plan evaluation report draw run_id admission
          before
        ≡ (ok done, after)
      → IsTransacted before after done
  unfolding apply_statements set_controlled_transaction_mode refuse_consumed_admission
  apply_statements-IsTransacted before after done h =
      let (u₁, s₁, h₁, k₁) =
        >>=-eq-ok (set_controlled_transaction_mode database false) _ before h in
      let (serial, serializable, same₁) =
        on_store-eq-ok (database.set isolation_level_serializable) before h₁ in
      let (u₂, s₂, h₂, k₂) =
        >>=-eq-ok (arm_admission_deadline database runtime request admission) _ s₁ k₁ in
      let (u₃, s₃, h₃, k₃) =
        >>=-eq-ok (lift (require_plan_admission env plan evaluation report admission)) _ s₂ k₂ in
      let (authorized, same₃) = lift-eq-ok _ s₂ h₃ in
      let (u₄, s₄, h₄, k₄) = >>=-eq-ok (refuse_consumed_admission database admission) _ s₃ k₃ in
      let (unconsumed, same₄) = refuse_consumed_admission-eq-ok s₃ s₄ h₄ in
      let (u₅, s₅, h₅, k₅) =
        >>=-eq-ok (check_targets (lock_and_resolve env database) items) _ s₄ k₄ in
      let (same₅, targets) =
        check_targets-unchanged (lock_and_resolve env database) items s₄ s₅ h₅ in
      let (u₆, s₆, h₆, k₆) =
        >>=-eq-ok
          (recheck_plan env database runtime request plan evaluation report draw run_id
            Refusing.apply)
          _ s₅ k₅ in
      let same₆ =
        recheck_plan-eq-ok env database runtime request plan evaluation report draw run_id
          Refusing.apply s₅ s₆ h₆ in
      let (u₇, applied, h₇, k₇) =
        >>=-eq-ok (apply_items env database runtime request run_id admission items) _ s₆ k₆ in
      let ends = conclude-IsConcluded applied after done k₇ in
      let before_items : s₂ ≡ s₆ = same₃ ∙ (same₄ ∙ (same₅ ∙ same₆)) in
      record {
        serial = serial;
        serializable = serializable;
        snapshot = s₂;
        first_deadline =
            arm-IsArmed runtime request admission database (with_store before serial) s₂ (
              subst (λ s. arm_admission_deadline database runtime request admission s ≡ (ok u₂, s₂))
                (sym same₁) h₂);
        authorized = authorized;
        unconsumed =
            subst (λ s. database.admission_consumed admission.admission_id s.store ≡ ok false)
              (sym same₃) unconsumed;
        targets =
            subst
              (λ s.
                All (λ item. lock_and_resolve env database item s.store ≡ ok item.target_set) items)
              (sym (same₃ ∙ same₄)) targets;
        applied = applied;
        applies =
            apply_items-Applies env database runtime request run_id admission items s₂ applied (
              subst
                (λ s.
                  apply_items env database runtime request run_id admission items s
                  ≡ (ok u₇, applied))
                (sym before_items) h₇);
        armed = ends.armed;
        last_deadline = ends.last_deadline;
        concludes = ends.concludes;
        recorded = ends.recorded;
        ticks = ends.ticks;
        steps = ends.steps;
      }
