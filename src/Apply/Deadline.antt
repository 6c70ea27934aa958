-- ===== src/Apply/Deadline.antt =====
-- apply/executor.py: the deadline that is armed before every wait of the transaction.
use airflow_dq_agent.Prelude.{
  ℕ, suc, ◌-◌, ◌≤◌, ◌<◌, ◌≡◌, false, ◌||◌, ltb, leb, arith, ap, ◌∙◌, sym, subst,
}
use airflow_dq_agent.Errors.{ok, refuse_if-eq-ok, ok-injective}
use airflow_dq_agent.Contracts.Value.{Datetime}
use airflow_dq_agent.Contracts.Decision.{ApplyAdmission}
use airflow_dq_agent.Apply.Authority.{Runtime, Request, read_apply_clock, remaining_ms, expired}
use airflow_dq_agent.Apply.Session.{Session, on_store}
use airflow_dq_agent.Apply.Session.Inversion.{>>=-eq-ok, on_store-eq-ok}
use airflow_dq_agent.Apply.Transaction.{arm_admission_deadline, read_remaining}
use airflow_dq_agent.Warehouse.{Database, statement_timeout, lock_timeout}

-- A reading that leaves the admission time: a positive number of milliseconds, computed of what
-- lies between the reading and the expiry.
pub record IsLive (runtime : Runtime) (admission : ApplyAdmission) (reading : Datetime)
    (remaining : ℕ) : Type 0 where
  pub measured : remaining ≡ runtime.milliseconds (admission.expires_at.micros - reading.micros)
  pub positive : 0 < remaining
  pub in_time : reading.micros ≤ admission.expires_at.micros

neither : (a b c : ℕ) → (ltb a b || leb c 0) ≡ false → (0 < c) × (b ≤ a)
neither a b c h = (ground arith, ground arith)

module _ (runtime : Runtime) (request : Request) (admission : ApplyAdmission) where
  remaining_ms-IsLive :
      (reading : Datetime) (remaining : ℕ)
      → remaining_ms runtime request admission reading ≡ ok remaining
      → IsLive runtime admission reading remaining
  unfolding remaining_ms
  remaining_ms-IsLive reading remaining h =
      let left = runtime.milliseconds (admission.expires_at.micros - reading.micros) in
      let (zone, h₁) = refuse_if-eq-ok _ _ _ h in
      let (live, h₂) =
        refuse_if-eq-ok (ltb admission.expires_at.micros reading.micros || leb left 0) expired
          (ok left) h₁ in
      let both = neither admission.expires_at.micros reading.micros left live in
      let same : left ≡ remaining = ok-injective h₂ in
      record { measured = sym same; positive = subst (λ n. 0 < n) same both.0; in_time = both.1 }

  -- The reading after `ticks` others is live.
  abbrev pub LiveAt : ℕ → Type 0
  LiveAt ticks =
      (remaining : ℕ) × IsLive runtime admission (read_apply_clock runtime request ticks) remaining

  module _ {S : Type 0} (database : Database S) where
    -- What an armed deadline leaves behind: one more reading, which is live, and timeouts of the time
    -- that is left, in the session.
    pub record IsArmed (before after : Session S) : Type 0 where
      pub remaining : ℕ
      pub live : IsLive runtime admission (read_apply_clock runtime request before.ticks) remaining
      pub bounded : S
      pub statement_bounded : database.set (statement_timeout remaining) before.store ≡ ok bounded
      pub lock_bounded : database.set (lock_timeout remaining) bounded ≡ ok after.store
      pub ticks : after.ticks ≡ suc before.ticks
      pub steps : after.steps ≡ before.steps

    pub arm-IsArmed :
        (before after : Session S) {u : Unit {0}}
        → arm_admission_deadline database runtime request admission before ≡ (ok u, after)
        → IsArmed before after
    unfolding arm_admission_deadline
    arm-IsArmed before after h =
        let (remaining, s₁, h₁, k₁) =
          >>=-eq-ok (read_remaining database runtime request admission) _ before h in
        let (done, s₂, h₂, k₂) =
          >>=-eq-ok (on_store (database.set (statement_timeout remaining))) _ s₁ k₁ in
        let (bounded, first, stored) =
          on_store-eq-ok (database.set (statement_timeout remaining)) s₁ h₂ in
        let (locked, second, stored') =
          on_store-eq-ok (database.set (lock_timeout remaining)) s₂ k₂ in
        let read : record before { ticks = suc before.ticks } ≡ s₁ = cc in
        let measured : remaining_ms runtime request admission
              (read_apply_clock runtime request before.ticks)
            ≡ ok remaining =
          cc in
        record {
          remaining = remaining;
          live = remaining_ms-IsLive _ remaining measured;
          bounded = bounded;
          statement_bounded =
              subst (λ s. database.set (statement_timeout remaining) s.store ≡ ok bounded)
                (sym read) first;
          lock_bounded =
              subst (λ s. database.set (lock_timeout remaining) s.store ≡ ok after.store)
                (sym stored) (second ∙ ap (λ s. ok s.store) stored');
          ticks =
              sym (ap (λ s. s.ticks) read ∙ (ap (λ s. s.ticks) stored ∙ ap (λ s. s.ticks) stored'));
          steps =
              sym (ap (λ s. s.steps) read ∙ (ap (λ s. s.steps) stored ∙ ap (λ s. s.steps) stored'));
        }
