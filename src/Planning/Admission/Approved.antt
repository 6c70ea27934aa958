-- ===== src/Planning/Admission/Approved.antt =====
-- planning/admission.py: what the durable approval check establishes.
use airflow_dq_agent.Prelude.{
  not-false, String, ◌≡◌, refl, subst, Bool, true, false, not, ◌||◌, Option, none, some, ◌!=◌, !=→≡,
  option_eq, option_eq→≡, arith,
}
use airflow_dq_agent.Errors.{
  ok, Refusing, Reason, ok-injective, review_not_found, no_lookup, event_not_found, refuse_if-eq-ok,
  >>=-eq-ok,
}
use airflow_dq_agent.Contracts.Plan.{RemediationPlan}
use airflow_dq_agent.Contracts.Evaluation.{EvalReport, ApprovalReview}
use airflow_dq_agent.Contracts.Decision.{HumanDecision, AuditEvent}
use airflow_dq_agent.Environment.{Env}
use airflow_dq_agent.Planning.Integrity.{present, verify_decision_integrity}
use airflow_dq_agent.Planning.Integrity.Verified.{not_or-false, refuse_if-ok}
use airflow_dq_agent.Planning.Review.{Timedelta, build_approval_review}
use airflow_dq_agent.Planning.Admission.{
  AuditLineageLookup, required, durable_event_id, is_approval, is_review, first_predecessor,
  follows_evaluation, approval_event, verify_approval_event, verify_reviewed,
  verify_durable_approval,
}

-- The event approves this decision, by this actor, of this plan, run and evaluation.
pub record Approves (env : Env) (plan : RemediationPlan) (evaluation : EvalReport)
    (decision : HumanDecision) (event : AuditEvent) : Type 0 where
  pub approval : is_approval event.kind ≡ true
  pub outcome : event.decision_outcome ≡ some "Approve"
  pub same_decision : event.decision_id ≡ some decision.decision_id
  pub same_run : event.quality_run_id ≡ plan.quality_run_id
  pub same_plan : event.plan_id ≡ some plan.plan_id
  pub same_plan_fingerprint : event.plan_fingerprint ≡ some plan.fingerprint
  pub same_actor : event.decision_actor ≡ some decision.actor
  pub unaltered :
      verify_decision_integrity env Refusing.admission decision event.decision_fingerprint ≡ ok tt
  pub same_evaluation : event.evaluation_id ≡ some evaluation.evaluation_id
  pub same_evaluation_fingerprint : event.evaluation_fingerprint ≡ evaluation.fingerprint

required-ok {ℓ} :
    {A : Type ℓ} (reason : Reason) (o : Option A) {a : A} → required reason o ≡ ok a → o ≡ some a
required-ok reason none h = cc
required-ok reason (some a) h = cc

same_text : (a b : Option String) → not (option_eq a b) ≡ false → a ≡ b
same_text a b h = option_eq→≡ a b (not-false (option_eq a b) h)

verify_approval_event-Approves :
    (env : Env) (plan : RemediationPlan) (evaluation : EvalReport) (decision : HumanDecision)
    (event : AuditEvent)
    → verify_approval_event env plan evaluation decision event ≡ ok tt
    → Approves env plan evaluation decision event
unfolding verify_approval_event
verify_approval_event-Approves env plan evaluation decision event h =
    let (a, h₁) =
      refuse_if-eq-ok
        (not (is_approval event.kind) || not (option_eq event.decision_outcome (some "Approve"))) _
        _ h in
    let (b, h₂) =
      refuse_if-eq-ok (not (option_eq event.decision_id (some decision.decision_id))) _ _ h₁ in
    let (c, h₃) = refuse_if-eq-ok (event.quality_run_id != plan.quality_run_id) _ _ h₂ in
    let (d, h₄) =
      refuse_if-eq-ok
        (not (option_eq event.plan_id (some plan.plan_id))
          || not (option_eq event.plan_fingerprint (some plan.fingerprint)))
        _ _ h₃ in
    let (e, h₅) =
      refuse_if-eq-ok (not (option_eq event.decision_actor (some decision.actor))) _ _ h₄ in
    let (u, f, h₆) =
      >>=-eq-ok
        (verify_decision_integrity env Refusing.admission decision event.decision_fingerprint) _
        h₅ in
    let g =
      refuse_if-ok
        (not (option_eq event.evaluation_id (some evaluation.evaluation_id))
          || not (option_eq event.evaluation_fingerprint evaluation.fingerprint))
        _ h₆ in
    let kinds =
      not_or-false (is_approval event.kind) (option_eq event.decision_outcome (some "Approve")) a in
    let plans =
      not_or-false (option_eq event.plan_id (some plan.plan_id))
        (option_eq event.plan_fingerprint (some plan.fingerprint)) d in
    let evaluations =
      not_or-false (option_eq event.evaluation_id (some evaluation.evaluation_id))
        (option_eq event.evaluation_fingerprint evaluation.fingerprint) g in
    record {
      approval = kinds.0;
      outcome = option_eq→≡ _ _ kinds.1;
      same_decision = same_text _ _ b;
      same_run = !=→≡ event.quality_run_id plan.quality_run_id c;
      same_plan = option_eq→≡ _ _ plans.0;
      same_plan_fingerprint = option_eq→≡ _ _ plans.1;
      same_actor = same_text _ _ e;
      unaltered = f;
      same_evaluation = option_eq→≡ _ _ evaluations.0;
      same_evaluation_fingerprint = option_eq→≡ _ _ evaluations.1;
    }

-- The review that is rebuilt from the plan and its evaluation is the one that the decision and its
-- event bind, and it was audited just before.
pub record Reviewed (env : Env) (plan : RemediationPlan) (evaluation : EvalReport)
    (decision : HumanDecision) (ttl : Timedelta) (event : AuditEvent) (lookup : AuditLineageLookup)
    : Type 0 where
  pub review : ApprovalReview
  pub rebuilt : build_approval_review env plan evaluation ttl ≡ ok review
  pub decided_on : decision.review_fingerprint ≡ some review.fingerprint
  pub audited_on : event.review_fingerprint ≡ some review.fingerprint
  pub predecessor_id : String
  pub comes_first : first_predecessor event.predecessor_ids ≡ ok predecessor_id
  pub predecessor : AuditEvent
  pub stored : lookup predecessor_id ≡ some predecessor
  pub is_a_review : is_review predecessor.kind ≡ true
  pub reviewed : predecessor.review_fingerprint ≡ some review.fingerprint
  pub same_evaluation : predecessor.evaluation_id ≡ some evaluation.evaluation_id
  pub same_evaluation_fingerprint : predecessor.evaluation_fingerprint ≡ evaluation.fingerprint
  pub in_order : follows_evaluation evaluation.audit_event_id predecessor.predecessor_ids ≡ true

not_or₃-false :
    (a b c : Bool) → (not a || (not b || not c)) ≡ false → (a ≡ true) × (b ≡ true) × (c ≡ true)
not_or₃-false true b c h = let (p, q) = not_or-false b c h in (refl, p, q)
not_or₃-false false b c h = cc

verify_reviewed-Reviewed :
    (env : Env) (plan : RemediationPlan) (evaluation : EvalReport) (decision : HumanDecision)
    (ttl : Timedelta) (event : AuditEvent) (lookup : AuditLineageLookup)
    → verify_reviewed env plan evaluation decision ttl event lookup ≡ ok tt
    → Reviewed env plan evaluation decision ttl event lookup
unfolding verify_reviewed
verify_reviewed-Reviewed env plan evaluation decision ttl event lookup h =
    let (review, rebuilt, h₁) = >>=-eq-ok (build_approval_review env plan evaluation ttl) _ h in
    let (a, h₂) =
      refuse_if-eq-ok
        (not (present decision.review_fingerprint)
          || (not (option_eq decision.review_fingerprint (some review.fingerprint))
              || not (option_eq event.review_fingerprint (some review.fingerprint))))
        _ _ h₁ in
    let (id, first, h₃) = >>=-eq-ok (first_predecessor event.predecessor_ids) _ h₂ in
    let (predecessor, stored, h₄) = >>=-eq-ok (required review_not_found (lookup id)) _ h₃ in
    let (b, h₅) = refuse_if-eq-ok (not (is_review predecessor.kind)) _ _ h₄ in
    let (c, h₆) =
      refuse_if-eq-ok
        (not (option_eq predecessor.review_fingerprint (some review.fingerprint))
          || (not (option_eq predecessor.evaluation_id (some evaluation.evaluation_id))
              || not (option_eq predecessor.evaluation_fingerprint evaluation.fingerprint)))
        _ _ h₅ in
    let d =
      refuse_if-ok (not (follows_evaluation evaluation.audit_event_id predecessor.predecessor_ids))
        _ h₆ in
    let bindings =
      not_or₃-false (present decision.review_fingerprint)
        (option_eq decision.review_fingerprint (some review.fingerprint))
        (option_eq event.review_fingerprint (some review.fingerprint)) a in
    let reviews =
      not_or₃-false (option_eq predecessor.review_fingerprint (some review.fingerprint))
        (option_eq predecessor.evaluation_id (some evaluation.evaluation_id))
        (option_eq predecessor.evaluation_fingerprint evaluation.fingerprint) c in
    record {
      review = review;
      rebuilt = rebuilt;
      decided_on = option_eq→≡ _ _ bindings.1;
      audited_on = option_eq→≡ _ _ bindings.2;
      predecessor_id = id;
      comes_first = first;
      predecessor = predecessor;
      stored = required-ok review_not_found (lookup id) stored;
      is_a_review = not-false (is_review predecessor.kind) b;
      reviewed = option_eq→≡ _ _ reviews.0;
      same_evaluation = option_eq→≡ _ _ reviews.1;
      same_evaluation_fingerprint = option_eq→≡ _ _ reviews.2;
      in_order = not-false _ d;
    }

-- A decision whose approval is durable: its event is in the lineage, approves it, and follows the
-- review of the very plan.
pub record IsDurablyApproved (env : Env) (plan : RemediationPlan) (evaluation : EvalReport)
    (decision : HumanDecision) (ttl : Timedelta) (audit_repository : Option AuditLineageLookup)
    (id : String) : Type 0 where
  pub lookup : AuditLineageLookup
  pub available : audit_repository ≡ some lookup
  pub named : decision.audit_event_id ≡ some id
  pub event : AuditEvent
  pub stored : lookup id ≡ some event
  pub approves : Approves env plan evaluation decision event
  pub reviewed : Reviewed env plan evaluation decision ttl event lookup

durable_event_id-ok : (o : Option String) {id : String} → durable_event_id o ≡ ok id → o ≡ some id
durable_event_id-ok none h = cc
durable_event_id-ok (some s) h = ground arith

record Found (decision : HumanDecision) (audit_repository : Option AuditLineageLookup)
    (found : String × AuditEvent × AuditLineageLookup) : Type 0 where
  available : audit_repository ≡ some found.2
  named : decision.audit_event_id ≡ some found.0
  stored : found.2 found.0 ≡ some found.1

approval_event-Found :
    (decision : HumanDecision) (audit_repository : Option AuditLineageLookup)
    (found : String × AuditEvent × AuditLineageLookup)
    → approval_event decision audit_repository ≡ ok found
    → Found decision audit_repository found
unfolding approval_event
approval_event-Found decision audit_repository found h =
    let (id, named, h₁) = >>=-eq-ok (durable_event_id decision.audit_event_id) _ h in
    let (lookup, available, h₂) = >>=-eq-ok (required no_lookup audit_repository) _ h₁ in
    let (event, stored, h₃) = >>=-eq-ok (required event_not_found (lookup id)) _ h₂ in
    let (_, h₄) = refuse_if-eq-ok (event.event_id != id) _ (ok (id, event, lookup)) h₃ in
    let same : ◌≡◌ {A = String × AuditEvent × AuditLineageLookup} (id, event, lookup) found =
      ok-injective h₄ in
    subst (Found decision audit_repository) same (record {
      available = required-ok no_lookup audit_repository available;
      named = durable_event_id-ok decision.audit_event_id named;
      stored = required-ok event_not_found (lookup id) stored;
    })

-- The durable approval check passes only when the decision names an event in the audit lineage that
-- approves this decision by this actor for this run, plan and evaluation, with the decision's own
-- fingerprint, and the event before it in the lineage is the review, rebuilt from the plan and its
-- evaluation, that the decision and its event bind.
pub verify_durable_approval-IsDurablyApproved :
    (env : Env) (plan : RemediationPlan) (evaluation : EvalReport) (decision : HumanDecision)
    (ttl : Timedelta) (audit_repository : Option AuditLineageLookup) (id : String)
    → verify_durable_approval env plan evaluation decision ttl audit_repository ≡ ok id
    → IsDurablyApproved env plan evaluation decision ttl audit_repository id
unfolding verify_durable_approval
verify_durable_approval-IsDurablyApproved env plan evaluation decision ttl audit_repository id h =
    let (found, e, h₁) = >>=-eq-ok (approval_event decision audit_repository) _ h in
    let (_, approves, h₂) =
      >>=-eq-ok (verify_approval_event env plan evaluation decision found.1) _ h₁ in
    let (_, reviewed, h₃) =
      >>=-eq-ok (verify_reviewed env plan evaluation decision ttl found.1 found.2) _ h₂ in
    let same : found.0 ≡ id = ok-injective h₃ in
    let f = approval_event-Found decision audit_repository found e in
    subst (IsDurablyApproved env plan evaluation decision ttl audit_repository) same (record {
      lookup = found.2;
      available = f.available;
      named = f.named;
      event = found.1;
      stored = f.stored;
      approves = verify_approval_event-Approves env plan evaluation decision found.1 approves;
      reviewed = verify_reviewed-Reviewed env plan evaluation decision ttl found.1 found.2 reviewed;
    })
