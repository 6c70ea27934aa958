-- ===== src/Hitl/Admitted.antt =====
-- hitl.py and planning/admission.py: a recorded decision before the durable approval check.
use airflow_dq_agent.Prelude.{
  equal_texts, String, ◌≡◌, refl, sym, subst, ap, ◌∙◌, true, false, ◌||◌, List, [], ◌∷◌, Option,
  none, some, ◌==◌, eq_refl, option_eq, strip, arith,
}
use airflow_dq_agent.Errors.{Result, ok, Refusing, >>=-eq-ok, ok-injective}
use airflow_dq_agent.Contracts.Plan.{RemediationPlan}
use airflow_dq_agent.Contracts.Evaluation.{EvalReport, ApprovalReview}
use airflow_dq_agent.Contracts.Decision.{approve, HumanDecision, DecisionBinding, AuditEvent}
use airflow_dq_agent.Environment.{Env}
use airflow_dq_agent.Planning.Integrity.{verify_decision_integrity}
use airflow_dq_agent.Planning.Review.{Timedelta, build_approval_review}
use airflow_dq_agent.Planning.Admission.{
  AuditLineageLookup, approval_event, verify_approval_event, verify_reviewed,
  verify_durable_approval, follows_evaluation,
}
use airflow_dq_agent.Traces.Lineage.{
  Stamp, Predecessor, event, predecessor_id, decision_event, review_event,
}
use airflow_dq_agent.Hitl.{
  DecisionInput, Draw, parse_input, validate_human_decision, bind_review, fingerprinted,
  prepare_decision, bound_to, record_human_decision,
}
use airflow_dq_agent.Hitl.Audited.{bound-IsBoundBy, record_human_decision-IsAudited}

-- The binding that a review, its plan and its evaluation give to a decision.
abbrev pub binding_of : RemediationPlan → EvalReport → ApprovalReview → Option DecisionBinding
binding_of plan evaluation review = some (record {
  plan_id = some plan.plan_id;
  plan_fingerprint = some plan.fingerprint;
  review_fingerprint = some review.fingerprint;
  evaluation_id = some evaluation.evaluation_id;
  evaluation_fingerprint = evaluation.fingerprint;
})

option_eq_refl : (o : Option String) → option_eq o o ≡ true
option_eq_refl none = refl
option_eq_refl (some s) = eq_refl s

-- A text that is more than white space.
abbrev pub HasText : String → Type 0
HasText s = (s == "" || strip s == "") ≡ false

bind_review-some :
    (s : String) (decision : HumanDecision)
    → HasText s
    → (bind_review (some s) decision).review_fingerprint ≡ some s
bind_review-some s decision h = rw h refl

prepare_decision-bound :
    (env : Env) (draw : Draw) (approver_ids : List String) (input : DecisionInput)
    (plan : RemediationPlan) (evaluation : EvalReport) (review : ApprovalReview)
    (prepared : HumanDecision)
    → HasText review.fingerprint
    → prepare_decision env draw approver_ids input (binding_of plan evaluation review) ≡ ok prepared
    → prepared.review_fingerprint ≡ some review.fingerprint
unfolding prepare_decision
prepare_decision-bound env draw approver_ids input plan evaluation review prepared filled h =
    let (parsed, read, h₁) = >>=-eq-ok (parse_input env draw approver_ids input) _ h in
    let (validated, valid, h₂) = >>=-eq-ok (validate_human_decision approver_ids parsed) _ h₁ in
    sym (ap (λ d. d.review_fingerprint) (ok-injective h₂))
    ∙ bind_review-some review.fingerprint (fingerprinted env validated) filled

has_text : (s : String) → HasText s → (s == "") ≡ false
has_text s h = ground arith

has_strip : (s : String) → HasText s → (strip s == "") ≡ false
has_strip s h = ground arith

module _ (env : Env) (draw : Draw) (plan : RemediationPlan) (evaluation : EvalReport)
    (review : ApprovalReview) (ttl : Timedelta) (stamp : Stamp) (before : Predecessor)
    (lookup : AuditLineageLookup) (prepared : HumanDecision) where
  abbrev pub reviewed : AuditEvent
  reviewed = review_event env stamp review evaluation before

  abbrev decided_event : AuditEvent
  decided_event =
      decision_event env draw.stamp plan.quality_run_id prepared (event reviewed)
        (binding_of plan evaluation review)

  abbrev returned : HumanDecision
  returned = bound_to decided_event prepared

  approval_event-found :
      HasText draw.stamp.event_id
      → lookup draw.stamp.event_id ≡ some decided_event
      → approval_event returned (some lookup) ≡ ok (draw.stamp.event_id, decided_event, lookup)
  unfolding approval_event decision_event
  approval_event-found filled stored =
      rw (has_strip draw.stamp.event_id filled, stored, equal_texts draw.stamp.event_id) refl

  verify_approval_event-passes :
      prepared.decision ≡ approve
      → verify_decision_integrity env Refusing.admission returned decided_event.decision_fingerprint
        ≡ ok tt
      → verify_approval_event env plan evaluation returned decided_event ≡ ok tt
  unfolding verify_approval_event decision_event
  verify_approval_event-passes approved unaltered =
      rw
        (
          unaltered,
          approved,
          eq_refl prepared.decision_id,
          equal_texts plan.quality_run_id,
          eq_refl plan.plan_id,
          eq_refl plan.fingerprint,
          eq_refl prepared.actor,
          eq_refl evaluation.evaluation_id,
          option_eq_refl evaluation.fingerprint,
        )
        refl

  verify_reviewed-passes :
      build_approval_review env plan evaluation ttl ≡ ok review
      → HasText review.fingerprint
      → prepared.review_fingerprint ≡ some review.fingerprint
      → lookup stamp.event_id ≡ some reviewed
      → follows_evaluation evaluation.audit_event_id (predecessor_id before ∷ []) ≡ true
      → verify_reviewed env plan evaluation returned ttl decided_event lookup ≡ ok tt
  unfolding verify_reviewed decision_event review_event
  verify_reviewed-passes built filled bound stored ordered =
      rw
        (
          built,
          bound,
          has_text review.fingerprint filled,
          eq_refl review.fingerprint,
          stored,
          eq_refl review.fingerprint,
          eq_refl evaluation.evaluation_id,
          option_eq_refl evaluation.fingerprint,
          ordered,
        )
        refl

  passes :
      approval_event returned (some lookup) ≡ ok (draw.stamp.event_id, decided_event, lookup)
      → verify_approval_event env plan evaluation returned decided_event ≡ ok tt
      → verify_reviewed env plan evaluation returned ttl decided_event lookup ≡ ok tt
      → verify_durable_approval env plan evaluation returned ttl (some lookup)
        ≡ ok draw.stamp.event_id
  unfolding verify_durable_approval
  passes found approves reviews = rw (found, approves, reviews) refl

-- An approval of a review is admitted once it is recorded with the binding of the review, its plan
-- and its evaluation: if the review is the one that is rebuilt, its fingerprint and the identifier of
-- the decision's event are not blank, the review's event follows the evaluation's, and the lookup
-- finds the review's event and the event that was persisted, then the durable approval check
-- passes for the decision that recording returned.
pub recorded_approval-admitted :
    {S : Type 0} (env : Env) (persist : AuditEvent → S → Result (Unit {0}) × S) (draw : Draw)
    (approver_ids : List String) (plan : RemediationPlan) (evaluation : EvalReport)
    (review : ApprovalReview) (ttl : Timedelta) (stamp : Stamp) (before : Predecessor)
    (input : DecisionInput) (s s' : S) (decision : HumanDecision) (lookup : AuditLineageLookup)
    → build_approval_review env plan evaluation ttl ≡ ok review
    → HasText review.fingerprint
    → HasText draw.stamp.event_id
    → follows_evaluation evaluation.audit_event_id (predecessor_id before ∷ []) ≡ true
    → lookup stamp.event_id ≡ some (review_event env stamp review evaluation before)
    → ((e : AuditEvent) → persist e s ≡ (ok tt, s') → lookup e.event_id ≡ some e)
    → record_human_decision env persist draw approver_ids plan.quality_run_id
        (event (review_event env stamp review evaluation before))
        (binding_of plan evaluation review)
        input
        s
      ≡ (ok decision, s')
    → decision.decision ≡ approve
    → verify_durable_approval env plan evaluation decision ttl (some lookup)
      ≡ ok draw.stamp.event_id
unfolding decision_event
recorded_approval-admitted env persist draw approver_ids plan evaluation review ttl stamp before
      input s s' decision lookup built filled named ordered stored durable h approved =
    let a =
      record_human_decision-IsAudited env persist draw approver_ids plan.quality_run_id
        (event (review_event env stamp review evaluation before))
        (binding_of plan evaluation review) input s s' decision h in
    let b =
      bound-IsBoundBy env persist draw approver_ids plan.quality_run_id
        (event (review_event env stamp review evaluation before))
        (binding_of plan evaluation review) s s' a.prepared a.persisted in
    subst
      (λ d.
        verify_durable_approval env plan evaluation d ttl (some lookup) ≡ ok draw.stamp.event_id)
      (sym a.bound)
      (passes env draw plan evaluation review ttl stamp before lookup a.prepared
        (approval_event-found env draw plan evaluation review ttl stamp before lookup a.prepared
          named (durable _ a.persisted))
        (verify_approval_event-passes env draw plan evaluation review ttl stamp before lookup
          a.prepared (sym (ap (λ d. d.decision) a.bound) ∙ approved)
          (b.verifies Refusing.admission))
        (verify_reviewed-passes env draw plan evaluation review ttl stamp before lookup a.prepared
          built filled
          (prepare_decision-bound env draw approver_ids input plan evaluation review a.prepared
            filled a.ready)
          stored ordered))
