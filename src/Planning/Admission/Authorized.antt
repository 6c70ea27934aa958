-- ===== src/Planning/Admission/Authorized.antt =====
-- planning/admission.py: what an apply admission rests on.
use airflow_dq_agent.Prelude.{
  equal_texts, not-false, ℕ, ◌+◌, ◌<◌, ◌≤◌, String, ◌≡◌, refl, sym, subst, true, false, not, Option,
  some, ltb, leb, option_eq, eq_refl, arith,
}
use airflow_dq_agent.Errors.{ok, Refusing, refuse_if-eq-ok, >>=-eq-ok, ok-injective}
use airflow_dq_agent.Contracts.Value.{Datetime}
use airflow_dq_agent.Contracts.Report.{QualitySuiteReport}
use airflow_dq_agent.Contracts.Plan.{RemediationPlan}
use airflow_dq_agent.Contracts.Evaluation.{EvalReport}
use airflow_dq_agent.Contracts.Decision.{HumanDecision, ApplyAdmission, is_approve}
use airflow_dq_agent.Environment.{Env}
use airflow_dq_agent.Planning.Payload.{admission_payload, admission_payload_fingerprint}
use airflow_dq_agent.Planning.Integrity.{
  plan_fingerprint, verify_report_integrity, verify_plan_integrity, verify_evaluation_integrity,
  verify_admission_integrity, verify_executable_params,
}
use airflow_dq_agent.Planning.Integrity.Verified.{
  IsOwnEvaluation, verify_plan_integrity-ok, verify_evaluation_integrity-ok,
}
use airflow_dq_agent.Planning.Review.{Timedelta}
use airflow_dq_agent.Planning.Admission.{
  AuditLineageLookup, verify_durable_approval, in_utc, later, refuse_conflicting_plan_items,
  build_admission, create_apply_admission,
}
use airflow_dq_agent.Planning.Admission.Approved.{
  IsDurablyApproved, verify_durable_approval-IsDurablyApproved,
}

-- The grounds of an admission: unaltered artifacts of an unblocked plan that the policy re-derives, a
-- passed evaluation of that plan, a durable approval, and an issue inside the decision's window.
pub record IsAuthorized (env : Env) (admission_id : String) (issued_at : Datetime)
    (plan : RemediationPlan) (evaluation : EvalReport) (decision : HumanDecision)
    (report : QualitySuiteReport) (ttl : Timedelta) (audit_repository : Option AuditLineageLookup)
    (admission : ApplyAdmission) : Type 0 where
  pub report_unaltered : verify_report_integrity env Refusing.admission report ≡ ok tt
  pub plan_unaltered : plan_fingerprint env plan ≡ plan.fingerprint
  pub unblocked : plan.blocked ≡ false
  pub rederived : verify_executable_params env Refusing.admission plan report ≡ ok tt
  pub evaluation_passed : evaluation.passed ≡ true
  pub own_evaluation : IsOwnEvaluation env plan evaluation admission.evaluation_fingerprint
  pub approved : is_approve decision.decision ≡ true
  pub durable :
      IsDurablyApproved env plan evaluation decision ttl audit_repository
        admission.decision_event_id
  pub no_conflict : refuse_conflicting_plan_items plan ≡ ok tt
  pub aware : issued_at.aware ≡ true
  pub built :
      admission
      ≡ build_admission env admission_id issued_at
          (later (in_utc decision.decided_at) ttl)
          plan
          evaluation
          admission.evaluation_fingerprint
          decision
          admission.decision_event_id
  pub issued : admission.issued_at ≡ issued_at
  pub expires : admission.expires_at ≡ later (in_utc decision.decided_at) ttl
  pub decided_before : decision.decided_at.micros ≤ admission.issued_at.micros
  pub still_valid : admission.issued_at.micros < admission.expires_at.micros

not_before : (m n : ℕ) → ltb m n ≡ false → n ≤ m
not_before m n h = ground arith

not_after : (m n : ℕ) → leb m n ≡ false → n < m
not_after m n h = ground arith

-- An admission is issued only for an unaltered report and an unaltered, unblocked plan that the check
-- policy re-derives from the report and whose items do not conflict, on a passed evaluation of that
-- very plan and an approval that is durable in the audit lineage, and only at an aware time that is
-- not before the decision and is before the decision's time and the time to live, which is its expiry.
pub create_apply_admission-IsAuthorized :
    (env : Env) (admission_id : String) (issued_at : Datetime) (plan : RemediationPlan)
    (evaluation : EvalReport) (decision : HumanDecision) (report : QualitySuiteReport)
    (ttl : Timedelta) (audit_repository : Option AuditLineageLookup) (admission : ApplyAdmission)
    → create_apply_admission env admission_id issued_at plan evaluation decision report ttl
        audit_repository
      ≡ ok admission
    → IsAuthorized env admission_id issued_at plan evaluation decision report ttl audit_repository
        admission
unfolding create_apply_admission
create_apply_admission-IsAuthorized env admission_id issued_at plan evaluation decision report ttl
      audit_repository admission h =
    let (_, a, h₁) = >>=-eq-ok (verify_report_integrity env Refusing.admission report) _ h in
    let (_, b, h₂) = >>=-eq-ok (verify_plan_integrity env Refusing.admission plan) _ h₁ in
    let (c, h₃) = refuse_if-eq-ok plan.blocked _ _ h₂ in
    let (_, d, h₄) = >>=-eq-ok (verify_executable_params env Refusing.admission plan report) _ h₃ in
    let (e, h₅) = refuse_if-eq-ok (not evaluation.passed) _ _ h₄ in
    let (fingerprint, f, h₆) =
      >>=-eq-ok (verify_evaluation_integrity env Refusing.admission plan evaluation) _ h₅ in
    let (g, h₇) = refuse_if-eq-ok (not (is_approve decision.decision)) _ _ h₆ in
    let (id, i, h₈) =
      >>=-eq-ok (verify_durable_approval env plan evaluation decision ttl audit_repository) _ h₇ in
    let (j, h₉) = refuse_if-eq-ok (not issued_at.aware) _ _ h₈ in
    let (k, h₁₀) = refuse_if-eq-ok (ltb issued_at.micros decision.decided_at.micros) _ _ h₉ in
    let (l, h₁₁) =
      refuse_if-eq-ok (leb (decision.decided_at.micros + ttl) issued_at.micros) _ _ h₁₀ in
    let (_, m, h₁₂) = >>=-eq-ok (refuse_conflicting_plan_items plan) _ h₁₁ in
    let built = ok-injective h₁₂ in
    subst
      (IsAuthorized env admission_id issued_at plan evaluation decision report ttl audit_repository)
      built
      (record {
        report_unaltered = a;
        plan_unaltered = verify_plan_integrity-ok env Refusing.admission plan b;
        unblocked = c;
        rederived = d;
        evaluation_passed = not-false evaluation.passed e;
        own_evaluation =
            verify_evaluation_integrity-ok env Refusing.admission plan evaluation fingerprint f;
        approved = not-false (is_approve decision.decision) g;
        durable =
            verify_durable_approval-IsDurablyApproved env plan evaluation decision ttl
              audit_repository id i;
        no_conflict = m;
        aware = not-false issued_at.aware j;
        built = refl;
        issued = refl;
        expires = refl;
        decided_before = not_before issued_at.micros decision.decided_at.micros k;
        still_valid = not_after (decision.decided_at.micros + ttl) issued_at.micros l;
      })

carried_fingerprint :
    (own : String) (o : Option String) → o ≡ some own → not (option_eq (some own) o) ≡ false
carried_fingerprint own o h = rw h (ground (arith, eq_refl own))

build_admission-verified :
    (env : Env) (refusing : Refusing) (admission_id : String) (issued_at expires_at : Datetime)
    (plan : RemediationPlan) (evaluation : EvalReport) (fingerprint : String)
    (decision : HumanDecision) (event_id : String)
    → evaluation.fingerprint ≡ some fingerprint
    → verify_admission_integrity env refusing plan evaluation (
        build_admission env admission_id issued_at expires_at plan evaluation fingerprint decision
          event_id)
      ≡ ok tt
unfolding verify_admission_integrity admission_payload_fingerprint admission_payload
build_admission-verified env refusing admission_id issued_at expires_at plan evaluation fingerprint
      decision event_id h =
    let payload = admission_payload_fingerprint env (
      build_admission env admission_id issued_at expires_at plan evaluation fingerprint decision
        event_id) in
    rw (
      equal_texts payload,
      equal_texts plan.plan_id,
      equal_texts plan.fingerprint,
      equal_texts plan.quality_run_id,
      equal_texts evaluation.evaluation_id,
      equal_texts plan.warehouse_environment_id,
      carried_fingerprint fingerprint evaluation.fingerprint h,
    )

-- An admission that is issued passes the integrity check, whoever asks, for the plan and the
-- evaluation it was issued on.
pub create_apply_admission-verified :
    (env : Env) (admission_id : String) (issued_at : Datetime) (plan : RemediationPlan)
    (evaluation : EvalReport) (decision : HumanDecision) (report : QualitySuiteReport)
    (ttl : Timedelta) (audit_repository : Option AuditLineageLookup) (admission : ApplyAdmission)
    (refusing : Refusing)
    → create_apply_admission env admission_id issued_at plan evaluation decision report ttl
        audit_repository
      ≡ ok admission
    → verify_admission_integrity env refusing plan evaluation admission ≡ ok tt
create_apply_admission-verified env admission_id issued_at plan evaluation decision report ttl
      audit_repository admission refusing h =
    let a =
      create_apply_admission-IsAuthorized env admission_id issued_at plan evaluation decision report
        ttl audit_repository admission h in
    subst (λ x. verify_admission_integrity env refusing plan evaluation x ≡ ok tt) (sym a.built)
      (build_admission-verified env refusing admission_id issued_at _ plan evaluation _ decision _
        a.own_evaluation.carried)
