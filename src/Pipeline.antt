-- ===== src/Pipeline.antt =====
-- The stages together: planning/compiler.py, evals/harness.py, planning/review.py, hitl.py and
-- planning/admission.py, from a quality report to an apply admission.
use airflow_dq_agent.Prelude.{
  ℕ, ◌+◌, ◌<◌, ◌≤◌, String, ◌≡◌, refl, sym, subst, ap, ◌∙◌, true, false, List, [], ◌∷◌, Option,
  some, ◌==◌, eq_refl, ltb, leb, Bool-cases, inl, inr, All, arith,
}
use airflow_dq_agent.Errors.{Result, ok, Refusing, ok-injective}
use airflow_dq_agent.Contracts.Value.{Datetime}
use airflow_dq_agent.Contracts.Report.{QualitySuiteReport}
use airflow_dq_agent.Contracts.Plan.{Proposal, RemediationPlan, executable_items}
use airflow_dq_agent.Contracts.Evaluation.{EvalReport, ApprovalReview}
use airflow_dq_agent.Contracts.Decision.{
  approve, is_approve, HumanDecision, ApplyAdmission, AuditEvent,
}
use airflow_dq_agent.Environment.{Env}
use airflow_dq_agent.Planning.Integrity.{
  evaluation_fingerprint, verify_report_integrity, verify_plan_integrity,
  verify_evaluation_integrity, verify_executable_params,
}
use airflow_dq_agent.Planning.Review.{Timedelta, build_approval_review}
use airflow_dq_agent.Planning.Compiler.{TargetSetResolver, compile_remediation_plan}
use airflow_dq_agent.Planning.Compiler.Current.{compile_remediation_plan-verified}
use airflow_dq_agent.Planning.Compiler.Rederived.{ReportMatches, HasReflexiveParams}
use airflow_dq_agent.Planning.Compiler.Accepted.{compile_remediation_plan-accepted}
use airflow_dq_agent.Planning.Admission.{
  AuditLineageLookup, follows_evaluation, verify_durable_approval, refuse_conflicting_plan_items,
  in_utc, later, build_admission, create_apply_admission,
}
use airflow_dq_agent.Evals.Plan.{evaluate_plan}
use airflow_dq_agent.Evals.Plan.Admissible.{
  IsNonempty, ResolvesNonempty, evaluate_plan-verified, evaluate_plan-fresh,
}
use airflow_dq_agent.Traces.Lineage.{Stamp, event, identifier, review_event}
use airflow_dq_agent.Hitl.{DecisionInput, Draw, record_human_decision}
use airflow_dq_agent.Hitl.Admitted.{HasText, binding_of, recorded_approval-admitted}

follows_own : (id : String) → follows_evaluation (some id) (id ∷ []) ≡ true
follows_own id = elim (Bool-cases (id == "")) [
  | inl e ↦ rw e refl
  | inr e ↦ rw (e, eq_refl id) refl
]

not_before : (m n : ℕ) → n ≤ m → ltb m n ≡ false
not_before m n h = ground arith

not_after : (m n : ℕ) → n < m → leb m n ≡ false
not_after m n h = ground arith

-- The evaluation, once its audit event is known.
abbrev pub audited : EvalReport → String → EvalReport
audited evaluation event_id = record evaluation { audit_event_id = some event_id }

audited-verified :
    (env : Env) (plan : RemediationPlan) (evaluation : EvalReport) (event_id : String)
    → verify_evaluation_integrity env Refusing.admission plan evaluation
      ≡ ok (evaluation_fingerprint env evaluation)
    → verify_evaluation_integrity env Refusing.admission plan (audited evaluation event_id)
      ≡ ok (evaluation_fingerprint env evaluation)
unfolding verify_evaluation_integrity evaluation_fingerprint
audited-verified env plan evaluation event_id h = h

-- Checks that pass, in the order of the code.
issue :
    (env : Env) (admission_id : String) (issued_at : Datetime) (plan : RemediationPlan)
    (evaluation : EvalReport) (decision : HumanDecision) (report : QualitySuiteReport)
    (ttl : Timedelta) (lookup : AuditLineageLookup) (fingerprint event_id : String)
    → verify_report_integrity env Refusing.admission report ≡ ok tt
    → verify_plan_integrity env Refusing.admission plan ≡ ok tt
    → plan.blocked ≡ false
    → verify_executable_params env Refusing.admission plan report ≡ ok tt
    → evaluation.passed ≡ true
    → verify_evaluation_integrity env Refusing.admission plan evaluation ≡ ok fingerprint
    → decision.decision ≡ approve
    → verify_durable_approval env plan evaluation decision ttl (some lookup) ≡ ok event_id
    → issued_at.aware ≡ true
    → decision.decided_at.micros ≤ issued_at.micros
    → issued_at.micros < decision.decided_at.micros + ttl
    → refuse_conflicting_plan_items plan ≡ ok tt
    → create_apply_admission env admission_id issued_at plan evaluation decision report ttl
        (some lookup)
      ≡ ok (
          build_admission env admission_id issued_at
            (later (in_utc decision.decided_at) ttl)
            plan
            evaluation
            fingerprint
            decision
            event_id)
unfolding create_apply_admission
issue env admission_id issued_at plan evaluation decision report ttl lookup fingerprint event_id a b
      c d e f g h i j k l =
    rw
      (
        a,
        b,
        d,
        f,
        h,
        l,
        not_before issued_at.micros decision.decided_at.micros j,
        not_after (decision.decided_at.micros + ttl) issued_at.micros k,
        c,
        e,
        ap is_approve g,
        i,
      )
      refl

-- The artifacts of one run in which everything is produced by the code and a human approves.
pub record IsApprovedRun {S : Type 0} (env : Env) (resolver : TargetSetResolver)
    (persist : AuditEvent → S → Result (Unit {0}) × S) (report : QualitySuiteReport)
    (candidate : Proposal) (plan : RemediationPlan) (evaluation : EvalReport)
    (decision : HumanDecision) (ttl : Timedelta) (lookup : AuditLineageLookup) : Type 0 where
  pub environment : Option String
  pub plan_id : String
  pub compiled_at : Datetime
  pub compiled :
      compile_remediation_plan env resolver environment plan_id compiled_at report candidate
      ≡ ok plan
  pub unblocked : plan.blocked ≡ false
  pub evaluation_id : String
  pub evaluated : EvalReport
  pub evaluates : evaluate_plan env evaluation_id plan ≡ ok evaluated
  pub evaluation_event_id : String
  pub evaluation_audited : evaluation ≡ audited evaluated evaluation_event_id
  pub review : ApprovalReview
  pub reviews : build_approval_review env plan evaluation ttl ≡ ok review
  pub stamp : Stamp
  pub review_stored :
      lookup stamp.event_id
      ≡ some (review_event env stamp review evaluation (identifier evaluation_event_id))
  pub draw : Draw
  pub approver_ids : List String
  pub input : DecisionInput
  pub s : S
  pub s' : S
  pub recorded :
      record_human_decision env persist draw approver_ids plan.quality_run_id
        (event (review_event env stamp review evaluation (identifier evaluation_event_id)))
        (binding_of plan evaluation review)
        input
        s
      ≡ (ok decision, s')
  pub durable : (e : AuditEvent) → persist e s ≡ (ok tt, s') → lookup e.event_id ≡ some e
  pub approved : decision.decision ≡ approve
  pub review_text : HasText review.fingerprint
  pub event_text : HasText draw.stamp.event_id

passed_evaluation :
    {S : Type 0} (env : Env) (resolver : TargetSetResolver)
    (persist : AuditEvent → S → Result (Unit {0}) × S) (report : QualitySuiteReport)
    (candidate : Proposal) (plan : RemediationPlan) (evaluation : EvalReport)
    (decision : HumanDecision) (ttl : Timedelta) (lookup : AuditLineageLookup)
    → ResolvesNonempty resolver
    → IsApprovedRun env resolver persist report candidate plan evaluation decision ttl lookup
    → evaluation.passed ≡ true
passed_evaluation env resolver persist report candidate plan evaluation decision ttl lookup resolves
      run =
    let (e, produced, passed) =
      evaluate_plan-fresh env resolver run.environment run.plan_id run.compiled_at report candidate
        plan run.evaluation_id resolves run.compiled run.unblocked in
    let same : e ≡ run.evaluated = ok-injective (sym produced ∙ run.evaluates) in
    ap (λ x. x.passed) run.evaluation_audited ∙ (sym (ap (λ x. x.passed) same) ∙ passed)

-- A run in which the plan is compiled unblocked from an unaltered report of the catalog's checks,
-- evaluated, reviewed and approved on the record, with the review's event and the decision's event in
-- the lookup, ends in an admission, valid from its issue until the decision's time and the time to
-- live. It is to be issued at an aware time in that window, the plan's items are to be free of
-- conflicts and their parameters equal to themselves, the fingerprints of payloads and target sets not
-- empty, and the review's fingerprint and the decision's event identifier not blank.
pub approved_run-admitted :
    {S : Type 0} (env : Env) (resolver : TargetSetResolver)
    (persist : AuditEvent → S → Result (Unit {0}) × S) (report : QualitySuiteReport)
    (candidate : Proposal) (plan : RemediationPlan) (evaluation : EvalReport)
    (decision : HumanDecision) (ttl : Timedelta) (lookup : AuditLineageLookup)
    (admission_id : String) (issued_at : Datetime)
    → IsNonempty env
    → ResolvesNonempty resolver
    → ReportMatches env.catalog report
    → All HasReflexiveParams (executable_items plan.items)
    → verify_report_integrity env Refusing.admission report ≡ ok tt
    → refuse_conflicting_plan_items plan ≡ ok tt
    → issued_at.aware ≡ true
    → decision.decided_at.micros ≤ issued_at.micros
    → issued_at.micros < decision.decided_at.micros + ttl
    → IsApprovedRun env resolver persist report candidate plan evaluation decision ttl lookup
    → (admission : ApplyAdmission) × (create_apply_admission env admission_id issued_at plan
          evaluation decision report ttl
          (some lookup)
        ≡ ok admission)
      × (admission.issued_at ≡ issued_at)
      × (admission.expires_at ≡ later (in_utc decision.decided_at) ttl)
approved_run-admitted env resolver persist report candidate plan evaluation decision ttl lookup
      admission_id issued_at filled resolves matches reflexive unaltered compatible aware
      after_decision before_expiry run =
    let verified =
      evaluate_plan-verified env run.evaluation_id plan run.evaluated Refusing.admission filled
        run.evaluates in
    let own =
      subst
        (λ x.
          verify_evaluation_integrity env Refusing.admission plan x
          ≡ ok (evaluation_fingerprint env run.evaluated))
        (sym run.evaluation_audited)
        (audited-verified env plan run.evaluated run.evaluation_event_id verified) in
    let approved =
      recorded_approval-admitted env persist run.draw run.approver_ids plan evaluation run.review
        ttl run.stamp (identifier run.evaluation_event_id) run.input run.s run.s' decision lookup
        run.reviews run.review_text run.event_text
        (subst (λ x. follows_evaluation x.audit_event_id (run.evaluation_event_id ∷ []) ≡ true)
          (sym run.evaluation_audited) (follows_own run.evaluation_event_id))
        run.review_stored run.durable run.recorded run.approved in
    (
      _,
      issue env admission_id issued_at plan evaluation decision report ttl lookup _ _ unaltered
          (compile_remediation_plan-verified env resolver run.environment run.plan_id
            run.compiled_at report candidate plan Refusing.admission run.compiled)
          run.unblocked
          (compile_remediation_plan-accepted env resolver run.environment run.plan_id
            run.compiled_at report candidate plan Refusing.admission matches reflexive run.compiled)
          (passed_evaluation env resolver persist report candidate plan evaluation decision ttl
            lookup resolves run)
          own run.approved approved aware after_decision before_expiry compatible,
      refl,
      refl,
    )
