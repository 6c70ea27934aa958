-- ===== src/Apply/Once.antt =====
-- apply/executor.py: two applications of one admission. The ledger of the database is what the
-- functions `dq.admission_consumed` and `dq.record_apply_result` share.
use airflow_dq_agent.Prelude.{
  strip, ◌==◌, String, ◌≡◌, sym, subst, ◌∙◌, true, false, some, ◌⊎◌, inl, inr,
}
use airflow_dq_agent.Errors.{ok}
use airflow_dq_agent.Contracts.Report.{QualitySuiteReport}
use airflow_dq_agent.Contracts.Plan.{RemediationPlan}
use airflow_dq_agent.Contracts.Evaluation.{EvalReport}
use airflow_dq_agent.Contracts.Decision.{ApplyAdmission}
use airflow_dq_agent.Environment.{Env}
use airflow_dq_agent.Apply.Results.{apply_record}
use airflow_dq_agent.Apply.Authority.{Runtime, Request}
use airflow_dq_agent.Apply.Execution.{World, Trail, apply_plan}
use airflow_dq_agent.Apply.Atomic.{IsCommitted, HasEffect-IsCommitted, apply_plan-atomic}
use airflow_dq_agent.Apply.Transaction.{ApplyDraw}
use airflow_dq_agent.Warehouse.{Database, Setting, ApplyRecord}

-- A recorded admission whose identifier is not blank is consumed, and stays so in every later
-- transaction and under every setting. A blank identifier is never consumed.
pub record IsLedger {S : Type 0} (database : Database S) : Type 0 where
  pub records :
      (r : ApplyRecord) (s s' : S)
      → (strip r.admission_id == "") ≡ false
      → database.record_apply_result r s ≡ ok s'
      → database.admission_consumed r.admission_id s' ≡ ok true
  pub begins :
      (id : String) (s s' : S)
      → database.begin s ≡ ok s'
      → database.admission_consumed id s ≡ ok true
      → database.admission_consumed id s' ≡ ok true
  pub sets :
      (setting : Setting) (id : String) (s s' : S)
      → database.set setting s ≡ ok s'
      → database.admission_consumed id s ≡ ok true
      → database.admission_consumed id s' ≡ ok true

true≢false : ok true ≡ ok false → ⊥
true≢false h = cc

module _ {S T : Type 0} (env : Env) (database : Database S) (trail : Trail T) (runtime : Runtime)
    (ledger : IsLedger database) where
  -- A committed mutation leaves its admission consumed.
  IsCommitted-consumed :
      (request : Request) (plan : RemediationPlan) (evaluation : EvalReport)
      (report : QualitySuiteReport) (draw : ApplyDraw) (admission : ApplyAdmission)
      (w w' : World S T)
      → (strip admission.admission_id == "") ≡ false
      → IsCommitted env database trail runtime request plan evaluation report draw admission w w'
      → database.admission_consumed admission.admission_id w'.store ≡ ok true
  unfolding apply_record
  IsCommitted-consumed request plan evaluation report draw admission w w' named c =
      subst (λ s. database.admission_consumed admission.admission_id s ≡ ok true) (sym c.store)
        (ledger.records _ _ _ named c.transacted.recorded)

  -- It also had found it unused.
  IsCommitted-unused :
      (request : Request) (plan : RemediationPlan) (evaluation : EvalReport)
      (report : QualitySuiteReport) (draw : ApplyDraw) (admission : ApplyAdmission)
      (w w' : World S T)
      → IsCommitted env database trail runtime request plan evaluation report draw admission w w'
      → database.admission_consumed admission.admission_id w.store ≡ ok true
      → ⊥
  IsCommitted-unused request plan evaluation report draw admission w w' c h =
      let t = c.transacted in
      let id = admission.admission_id in
      let d = t.first_deadline in
      let k₀ = ledger.begins id w.store c.begun c.begins h in
      let k₁ = ledger.sets _ id c.begun t.serial t.serializable k₀ in
      let k₂ = ledger.sets _ id t.serial d.bounded d.statement_bounded k₁ in
      let k₃ = ledger.sets _ id d.bounded t.snapshot.store d.lock_bounded k₂ in
      true≢false (sym k₃ ∙ t.unconsumed)

  -- On a database where a recorded identifier, unless it is blank, is consumed from then on: of two
  -- mutations with admissions of one identifier that is not blank, one after the other, at
  -- most one changes the store, whatever their plans, connections, clocks and outcomes, an
  -- unacknowledged commit included.
  pub apply_plan-once :
      (request request' : Request) (plan plan' : RemediationPlan)
      (evaluation evaluation' : EvalReport) (report report' : QualitySuiteReport)
      (draw draw' : ApplyDraw) (admission admission' : ApplyAdmission) (w : World S T)
      → (strip admission.admission_id == "") ≡ false
      → admission.admission_id ≡ admission'.admission_id
      → let first =
          (apply_plan env database trail runtime request plan evaluation report draw false
            (some admission)
            w).1 in
        let second =
          (apply_plan env database trail runtime request' plan' evaluation' report' draw' false
            (some admission')
            first).1 in
        (first.store ≡ w.store) ⊎ (second.store ≡ first.store)
  apply_plan-once request request' plan plan' evaluation evaluation' report report' draw draw'
        admission admission' w named same =
      let first =
        apply_plan env database trail runtime request plan evaluation report draw false
          (some admission) w in
      let second =
        apply_plan env database trail runtime request' plan' evaluation' report' draw' false
          (some admission') first.1 in
      elim (apply_plan-atomic env database trail runtime request plan evaluation report draw false
        (some admission) w) [
          | inl kept ↦ inl kept
          | inr effect ↦
              elim (apply_plan-atomic env database trail runtime request' plan' evaluation' report'
                draw' false (some admission') first.1) [
                  | inl kept ↦ inr kept
                  | inr again ↦
                      let c =
                        HasEffect-IsCommitted env database trail runtime request plan evaluation
                          report draw admission w first.1 effect in
                      let c' =
                        HasEffect-IsCommitted env database trail runtime request' plan' evaluation'
                          report' draw' admission' first.1 second.1 again in
                      let used =
                        IsCommitted-consumed request plan evaluation report draw admission w first.1
                          named c in
                      absurd (
                        IsCommitted-unused request' plan' evaluation' report' draw' admission'
                          first.1 second.1 c'
                          (subst (λ id. database.admission_consumed id first.1.store ≡ ok true) same
                            used))
                ]
        ]
