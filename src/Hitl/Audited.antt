-- ===== src/Hitl/Audited.antt =====
-- hitl.py: the decision and its audit event.
use airflow_dq_agent.Prelude.{String, ◌≡◌, refl, sym, subst, ◌∙◌, Option, some, List, eq_iff, arith}
use airflow_dq_agent.Errors.{Result, ok, err, Refusing}
use airflow_dq_agent.Contracts.Value.{Params}
use airflow_dq_agent.Contracts.Decision.{HumanDecision, DecisionBinding, AuditEvent}
use airflow_dq_agent.Environment.{Env}
use airflow_dq_agent.Planning.Payload.{human_decision_fingerprint, decision_payload}
use airflow_dq_agent.Planning.Integrity.{verify_decision_integrity}
use airflow_dq_agent.Traces.Lineage.{Predecessor, decision_event}
use airflow_dq_agent.Hitl.{
  Draw, DecisionInput, provided, prepare_decision, audit_event, bound_to, record_human_decision,
  audit_then_complete_approval,
}
use airflow_dq_agent.Hitl.Recorded.{IsRecordable, prepare_decision-IsRecordable}

module _ {S : Type 0} (env : Env) (persist : AuditEvent → S → Result (Unit {0}) × S) (draw : Draw)
    (approver_ids : List String) (quality_run_id : String) (predecessor : Predecessor)
    (binding : Option DecisionBinding) where
  abbrev pub event_of : HumanDecision → AuditEvent
  event_of = audit_event env persist draw approver_ids quality_run_id predecessor binding

  -- A decision that was prepared and whose audit event was persisted on the way from `s` to `s'`.
  pub record IsAudited (input : DecisionInput) (s s' : S) (decision : HumanDecision) : Type 0 where
    pub prepared : HumanDecision
    pub ready : prepare_decision env draw approver_ids input binding ≡ ok prepared
    pub recordable : IsRecordable approver_ids prepared prepared.decision
    pub persisted : persist (event_of prepared) s ≡ (ok tt, s')
    pub bound : decision ≡ bound_to (event_of prepared) prepared

  -- What recording goes through when it returns.
  pub record_human_decision-IsAudited :
      (input : DecisionInput) (s s' : S) (decision : HumanDecision)
      → record_human_decision env persist draw approver_ids quality_run_id predecessor binding input
          s
        ≡ (ok decision, s')
      → IsAudited input s s' decision
  unfolding record_human_decision
  record_human_decision-IsAudited input s s' decision h =
      go (prepare_decision env draw approver_ids input binding) refl
    where
      persisted :
          (p : HumanDecision) (r : Result (Unit {0}) × S)
          → prepare_decision env draw approver_ids input binding ≡ ok p
          → persist (event_of p) s ≡ r
          → IsAudited input s s' decision
      persisted p (ok _, t) e q = record {
        prepared = p;
        ready = e;
        recordable = prepare_decision-IsRecordable env draw approver_ids input binding p e;
        persisted = q ∙ ground arith;
        bound = ground arith;
      }
      persisted p (err d, t) e q = absurd (ground arith)

      go :
          (r : Result HumanDecision)
          → prepare_decision env draw approver_ids input binding ≡ r
          → IsAudited input s s' decision
      go (ok p) e = persisted p (persist (event_of p) s) e refl
      go (err d) e = absurd (ground arith)

  -- An audit event that was persisted and that names and fingerprints the decision.
  pub record IsBoundBy (s s' : S) (decision : HumanDecision) (event : AuditEvent) : Type 0 where
    pub persisted : persist event s ≡ (ok tt, s')
    pub named : decision.audit_event_id ≡ some event.event_id
    pub same_id : event.decision_id ≡ some decision.decision_id
    pub same_actor : event.decision_actor ≡ some decision.actor
    pub same_run : event.quality_run_id ≡ quality_run_id
    pub verifies :
        (refusing : Refusing)
        → verify_decision_integrity env refusing decision event.decision_fingerprint ≡ ok tt

  pub bound-IsBoundBy :
      (s s' : S) (prepared : HumanDecision)
      → persist (event_of prepared) s ≡ (ok tt, s')
      → IsBoundBy s s' (bound_to (event_of prepared) prepared) (event_of prepared)
  unfolding decision_event verify_decision_integrity human_decision_fingerprint decision_payload
  bound-IsBoundBy s s' prepared h =
      let x = human_decision_fingerprint env prepared in
      record {
        persisted = h;
        named = refl;
        same_id = refl;
        same_actor = refl;
        same_run = refl;
        verifies = λ refusing. ground (arith, eq_iff x x);
      }

  -- The decision that recording returns is bound by an event that was persisted: the event names
  -- the decision, its actor and the run, and its fingerprint passes the integrity check of admission.
  pub record_human_decision-IsBoundBy :
      (input : DecisionInput) (s s' : S) (decision : HumanDecision)
      → record_human_decision env persist draw approver_ids quality_run_id predecessor binding input
          s
        ≡ (ok decision, s')
      → (event : AuditEvent) × IsBoundBy s s' decision event
  record_human_decision-IsBoundBy input s s' decision h =
      let a = record_human_decision-IsAudited input s s' decision h in
      (
        event_of a.prepared,
        subst (λ d. IsBoundBy s s' d (event_of a.prepared)) (sym a.bound)
            (bound-IsBoundBy s s' a.prepared a.persisted),
      )

  -- The provider is consulted only where the decision's event has been persisted: two providers that
  -- agree in every state that persisting an event, which names a decision and passes its integrity
  -- check, leaves behind, give the same outcome and the same state, whether the approval returns or
  -- raises.
  pub audit_before_completion :
      (complete_provider other : S → Result (Unit {0}) × S) (output : Params) (s : S)
      → ((t : S) (decision : HumanDecision) (event : AuditEvent)
          → IsBoundBy s t decision event
          → complete_provider t ≡ other t)
      → audit_then_complete_approval env persist draw approver_ids quality_run_id predecessor
          binding complete_provider output s
        ≡ audit_then_complete_approval env persist draw approver_ids quality_run_id predecessor
            binding other output s
  unfolding audit_then_complete_approval
  audit_before_completion complete_provider other output s agree =
      go
        (record_human_decision env persist draw approver_ids quality_run_id predecessor binding
          (provided output) s)
        refl
    where
      go :
          (r : Result HumanDecision × S)
          → record_human_decision env persist draw approver_ids quality_run_id predecessor binding
              (provided output)
              s
            ≡ r
          → audit_then_complete_approval env persist draw approver_ids quality_run_id predecessor
              binding complete_provider output s
            ≡ audit_then_complete_approval env persist draw approver_ids quality_run_id predecessor
                binding other output s
      go (ok d, t) e =
          let (event, bound) = record_human_decision-IsBoundBy (provided output) s t d e in
          let same = agree t d event bound in ground (arith, same, e)
      go (err x, t) e = ground (arith, e)

  -- An approval that returns a decision has persisted an event that names it and passes its integrity
  -- check, and the provider completed in the state which that left.
  pub completed_after_audit :
      (complete_provider : S → Result (Unit {0}) × S) (output : Params) (s s' : S)
      (decision : HumanDecision)
      → audit_then_complete_approval env persist draw approver_ids quality_run_id predecessor
          binding complete_provider output s
        ≡ (ok decision, s')
      → (t : S) × ((event : AuditEvent) × IsBoundBy s t decision event)
        × (complete_provider t ≡ (ok tt, s'))
  unfolding audit_then_complete_approval
  completed_after_audit complete_provider output s s' decision h = go recorded refl
    where
      recorded : Result HumanDecision × S
      recorded =
          record_human_decision env persist draw approver_ids quality_run_id predecessor binding
            (provided output) s

      completed :
          (d : HumanDecision) (t : S) (r : Result (Unit {0}) × S)
          → recorded ≡ (ok d, t)
          → complete_provider t ≡ r
          → (u : S) × (recorded ≡ (ok decision, u)) × (complete_provider u ≡ (ok tt, s'))
      completed d t (ok _, u) e q = (t, e ∙ ground arith, q ∙ ground arith)
      completed d t (err x, u) e q = absurd (ground arith)

      go :
          (r : Result HumanDecision × S)
          → recorded ≡ r
          → (t : S) × ((event : AuditEvent) × IsBoundBy s t decision event)
            × (complete_provider t ≡ (ok tt, s'))
      go (ok d, t) e =
          let (u, own, done) = completed d t (complete_provider t) e refl in
          (u, record_human_decision-IsBoundBy (provided output) s u decision own, done)
      go (err x, t) e = absurd (ground arith)
