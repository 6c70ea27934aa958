-- ===== src/Planning/Preparation.antt =====
-- planning/preparation.py: from a passed candidate to a review, each stage on the audit trail.
use airflow_dq_agent.Prelude.{
  String, ◌≡◌, refl, sym, ap, ◌∙◌, Bool, true, false, not, [], ◌∷◌, Option, none, some, not-false,
}
use airflow_dq_agent.Errors.{Result, ok, err, value_error, runtime_error, Refusing, refuse_if}
use airflow_dq_agent.Contracts.Value.{Value, Datetime}
use airflow_dq_agent.Contracts.Report.{QualitySuiteReport}
use airflow_dq_agent.Contracts.Plan.{Proposal, RemediationPlan}
use airflow_dq_agent.Contracts.Evaluation.{EvalReport, ApprovalReview}
use airflow_dq_agent.Contracts.Decision.{AuditEvent}
use airflow_dq_agent.Environment.{Env}
use airflow_dq_agent.Evals.Plan.{evaluate_plan}
use airflow_dq_agent.Planning.Body.{render_approval_review_body}
use airflow_dq_agent.Planning.Compiler.{TargetSetResolver, compile_remediation_plan}
use airflow_dq_agent.Planning.Integrity.{verify_report_integrity}
use airflow_dq_agent.Planning.Integrity.Verified.{refuse_if-ok}
use airflow_dq_agent.Planning.Review.{Timedelta, build_approval_review}
use airflow_dq_agent.Stateful.{Action, ◌>>=◌, ◌>>◌, lift, return, >>=-eq-ok, lift-eq-ok}
use airflow_dq_agent.Traces.Lineage.{
  Stamp, event, identifier, plan_event, evaluation_event, review_event,
}

-- The fresh values: identifiers of plan and evaluation, the time of compilation, and the stamps of the
-- three events.
pub record PreparationDraw : Type 0 where
  pub plan_id : String
  pub compiled_at : Datetime
  pub evaluation_id : String
  pub compiled : Stamp
  pub evaluated : Stamp
  pub reviewed : Stamp

-- `model_dump(mode="json")` of the three models: pydantic's.
pub record Dumps : Type 0 where
  pub plan : RemediationPlan → Value
  pub evaluation : EvalReport → Value
  pub approval_review : ApprovalReview → Value

-- The dictionary that is returned.
pub record PreparedReview : Type 0 where
  pub plan : Value
  pub plan_event_id : String
  pub evaluation : Value
  pub evaluation_event_id : String
  pub approval_review : Value
  pub approval_review_body : String
  pub review_event_id : String

abbrev no_root : Option String → Bool
no_root none = true
no_root (some id) = false

abbrev pub with_audit_event : EvalReport → AuditEvent → EvalReport
with_audit_event evaluation e = record evaluation { audit_event_id = some e.event_id }

abbrev returned : PreparedReview → Result PreparedReview → PreparedReview
returned d (ok r) = r
returned d (err e) = d

-- `persist` acts on a state of the caller's, and may raise.
module _ {S : Type 0} (env : Env) (dumps : Dumps) (resolver : TargetSetResolver)
    (persist : AuditEvent → S → Result (Unit {0}) × S) (draw : PreparationDraw)
    (report : QualitySuiteReport) (proposal : Proposal) (candidate_evaluation : EvalReport)
    (candidate_event_id : String) (ttl : Timedelta) where
  abbrev pub compiled_event : RemediationPlan → AuditEvent
  compiled_event plan = plan_event env draw.compiled plan (identifier candidate_event_id)

  abbrev pub evaluated_event : RemediationPlan → EvalReport → AuditEvent
  evaluated_event plan evaluation =
      evaluation_event env draw.evaluated plan evaluation (event (compiled_event plan))

  abbrev pub reviewed_event : RemediationPlan → EvalReport → ApprovalReview → AuditEvent
  reviewed_event plan evaluation review =
      review_event env draw.reviewed review
        (with_audit_event evaluation (evaluated_event plan evaluation))
        (event (evaluated_event plan evaluation))

  abbrev pub prepared : RemediationPlan → EvalReport → ApprovalReview → PreparedReview
  prepared plan evaluation review = record {
    plan = dumps.plan plan;
    plan_event_id = (compiled_event plan).event_id;
    evaluation = dumps.evaluation (with_audit_event evaluation (evaluated_event plan evaluation));
    evaluation_event_id = (evaluated_event plan evaluation).event_id;
    approval_review = dumps.approval_review review;
    approval_review_body = render_approval_review_body env review;
    review_event_id = (reviewed_event plan evaluation review).event_id;
  }

  -- The review of an evaluation that is on the audit trail.
  abbrev pub review_evaluated : RemediationPlan → EvalReport → Action S PreparedReview
  review_evaluated plan evaluation = do
    review ← lift (
        build_approval_review env plan
          (with_audit_event evaluation (evaluated_event plan evaluation)) ttl)
    persist (reviewed_event plan evaluation review)
    return (prepared plan evaluation review)

  abbrev pub evaluate_compiled : RemediationPlan → Action S PreparedReview
  evaluate_compiled plan = do
    persist (compiled_event plan)
    evaluation ← lift (evaluate_plan env draw.evaluation_id plan)
    persist (evaluated_event plan evaluation)
    review_evaluated plan evaluation

  abbrev pub compile_candidate : Action S RemediationPlan
  compile_candidate = do
    lift (verify_report_integrity env Refusing.plan_compilation report)
    lift (
        refuse_if (no_root report.audit_event_id)
          (runtime_error "quality report has no persisted audit root"))
    lift (
        refuse_if (not candidate_evaluation.passed)
          (value_error "Candidate Proposal evaluation failed"))
    lift (compile_remediation_plan env resolver none draw.plan_id draw.compiled_at report proposal)

  unfoldable pub prepare_plan_review : Action S PreparedReview
  prepare_plan_review = do plan ← compile_candidate; evaluate_compiled plan

  -- A prepared review: every stage succeeded on what the one before it gave, and the three events were
  -- persisted in order, each after its predecessor.
  pub record IsPrepared (before after : S) (result : PreparedReview) : Type 0 where
    pub unaltered : verify_report_integrity env Refusing.plan_compilation report ≡ ok tt
    pub passed : candidate_evaluation.passed ≡ true
    pub plan : RemediationPlan
    pub compiles :
        compile_remediation_plan env resolver none draw.plan_id draw.compiled_at report proposal
        ≡ ok plan
    pub evaluation : EvalReport
    pub evaluates : evaluate_plan env draw.evaluation_id plan ≡ ok evaluation
    pub compiled : AuditEvent
    pub compiled_own : compiled ≡ plan_event env draw.compiled plan (identifier candidate_event_id)
    pub evaluated : AuditEvent
    pub evaluated_own :
        evaluated ≡ evaluation_event env draw.evaluated plan evaluation (event compiled)
    pub audited : EvalReport
    pub audited_own : audited ≡ record evaluation { audit_event_id = some evaluated.event_id }
    pub review : ApprovalReview
    pub reviews : build_approval_review env plan audited ttl ≡ ok review
    pub reviewed : AuditEvent
    pub reviewed_own : reviewed ≡ review_event env draw.reviewed review audited (event evaluated)
    pub first : S
    pub second : S
    pub plan_persisted : persist compiled before ≡ (ok tt, first)
    pub evaluation_persisted : persist evaluated first ≡ (ok tt, second)
    pub review_persisted : persist reviewed second ≡ (ok tt, after)
    pub follows_candidate : compiled.predecessor_ids ≡ candidate_event_id ∷ []
    pub follows_plan : evaluated.predecessor_ids ≡ compiled.event_id ∷ []
    pub follows_evaluation : reviewed.predecessor_ids ≡ evaluated.event_id ∷ []
    pub shown_plan : result.plan ≡ dumps.plan plan
    pub plan_event_id : result.plan_event_id ≡ compiled.event_id
    pub shown_evaluation : result.evaluation ≡ dumps.evaluation audited
    pub evaluation_event_id : result.evaluation_event_id ≡ evaluated.event_id
    pub shown_review : result.approval_review ≡ dumps.approval_review review
    pub shown_body : result.approval_review_body ≡ render_approval_review_body env review
    pub review_event_id : result.review_event_id ≡ reviewed.event_id

  -- The parts of the last stage.
  IsReviewed : RemediationPlan → EvalReport → S → S → PreparedReview → Type 0
  IsReviewed plan evaluation before after result =
      (review : ApprovalReview) × (build_approval_review env plan
          (with_audit_event evaluation (evaluated_event plan evaluation)) ttl
        ≡ ok review)
      × (persist (reviewed_event plan evaluation review) before ≡ (ok tt, after))
      × (result ≡ prepared plan evaluation review)

  review_evaluated-IsReviewed :
      (plan : RemediationPlan) (evaluation : EvalReport) (before after : S)
      (result : PreparedReview)
      → review_evaluated plan evaluation before ≡ (ok result, after)
      → IsReviewed plan evaluation before after result
  unfolding IsReviewed
  review_evaluated-IsReviewed plan evaluation before after result h =
      let shown = with_audit_event evaluation (evaluated_event plan evaluation) in
      let (review, s₁, h₁, k₁) =
        >>=-eq-ok (lift (build_approval_review env plan shown ttl)) _ before h in
      let (reviews, same) = lift-eq-ok (build_approval_review env plan shown ttl) before h₁ in
      let (u, s₂, h₂, k₂) = >>=-eq-ok (persist (reviewed_event plan evaluation review)) _ s₁ k₁ in
      let own : prepared plan evaluation review ≡ result =
        ap (λ r. returned (prepared plan evaluation review) r.0) k₂ in
      let end : s₂ ≡ after = ap (λ r. r.1) k₂ in
      (
        review,
        reviews,
        ap (persist (reviewed_event plan evaluation review)) same ∙ (h₂ ∙ ap (λ s. (ok tt, s)) end),
        sym own,
      )

  -- The parts of the stages behind the compilation.
  record IsEvaluated (plan : RemediationPlan) (before after : S) (result : PreparedReview)
      : Type 0 where
    evaluation : EvalReport
    evaluates : evaluate_plan env draw.evaluation_id plan ≡ ok evaluation
    first : S
    second : S
    plan_persisted : persist (compiled_event plan) before ≡ (ok tt, first)
    evaluation_persisted : persist (evaluated_event plan evaluation) first ≡ (ok tt, second)
    reviewed : IsReviewed plan evaluation second after result

  evaluate_compiled-IsEvaluated :
      (plan : RemediationPlan) (before after : S) (result : PreparedReview)
      → evaluate_compiled plan before ≡ (ok result, after)
      → IsEvaluated plan before after result
  evaluate_compiled-IsEvaluated plan before after result h =
      let (u₁, first, h₁, k₁) = >>=-eq-ok (persist (compiled_event plan)) _ before h in
      let (evaluation, s₂, h₂, k₂) =
        >>=-eq-ok (lift (evaluate_plan env draw.evaluation_id plan)) _ first k₁ in
      let (evaluates, same) = lift-eq-ok (evaluate_plan env draw.evaluation_id plan) first h₂ in
      let (u₃, second, h₃, k₃) =
        >>=-eq-ok (persist (evaluated_event plan evaluation))
          (λ u. review_evaluated plan evaluation) s₂ k₂ in
      record {
        evaluation = evaluation;
        evaluates = evaluates;
        first = first;
        second = second;
        plan_persisted = h₁;
        evaluation_persisted = ap (persist (evaluated_event plan evaluation)) same ∙ h₃;
        reviewed = review_evaluated-IsReviewed plan evaluation second after result k₃;
      }

  compile_candidate-ok :
      (before after : S) (plan : RemediationPlan)
      → compile_candidate before ≡ (ok plan, after)
      → (verify_report_integrity env Refusing.plan_compilation report ≡ ok tt)
        × (candidate_evaluation.passed ≡ true)
        × (compile_remediation_plan env resolver none draw.plan_id draw.compiled_at report proposal
            ≡ ok plan)
        × (before ≡ after)
  compile_candidate-ok before after plan h =
      let (u₁, s₁, h₁, k₁) =
        >>=-eq-ok (lift (verify_report_integrity env Refusing.plan_compilation report)) _ before
          h in
      let (unaltered, same₁) = lift-eq-ok _ before h₁ in
      let (u₂, s₂, h₂, k₂) =
        >>=-eq-ok (lift (refuse_if (no_root report.audit_event_id) _)) _ s₁ k₁ in
      let same₂ = (lift-eq-ok _ s₁ h₂).1 in
      let (u₃, s₃, h₃, k₃) =
        >>=-eq-ok (lift (refuse_if (not candidate_evaluation.passed) _)) _ s₂ k₂ in
      let (passed, same₃) = lift-eq-ok _ s₂ h₃ in
      let (compiles, same₄) = lift-eq-ok _ s₃ k₃ in
      (
        unaltered,
        not-false _ (refuse_if-ok _ _ passed),
        compiles,
        same₁ ∙ (same₂ ∙ (same₃ ∙ same₄)),
      )

  -- What preparation returns was compiled, evaluated and reviewed by the code from an unaltered report
  -- and a passed candidate, and is on the audit trail: the plan's event, the evaluation's and the
  -- review's were persisted in this order, each naming the one before it as its predecessor, the first
  -- of them the candidate's, and the last state is that of the last write. It returns the dumps of the
  -- plan, of the evaluation with the identifier of its event, of which the review was built, and of
  -- the review, with the review's text and the identifiers of the three events.
  pub prepare_plan_review-IsPrepared :
      (before after : S) (result : PreparedReview)
      → prepare_plan_review before ≡ (ok result, after)
      → IsPrepared before after result
  unfolding prepare_plan_review IsReviewed plan_event evaluation_event review_event
  prepare_plan_review-IsPrepared before after result h =
      let (plan, s₁, h₁, k₁) = >>=-eq-ok compile_candidate evaluate_compiled before h in
      let (unaltered, passed, compiles, same) = compile_candidate-ok before s₁ plan h₁ in
      let e = evaluate_compiled-IsEvaluated plan s₁ after result k₁ in
      let (review, reviews, review_persisted, own) = e.reviewed in
      record {
        unaltered = unaltered;
        passed = passed;
        plan = plan;
        compiles = compiles;
        evaluation = e.evaluation;
        evaluates = e.evaluates;
        compiled = compiled_event plan;
        compiled_own = refl;
        evaluated = evaluated_event plan e.evaluation;
        evaluated_own = refl;
        audited = with_audit_event e.evaluation (evaluated_event plan e.evaluation);
        audited_own = refl;
        review = review;
        reviews = reviews;
        reviewed = reviewed_event plan e.evaluation review;
        reviewed_own = refl;
        first = e.first;
        second = e.second;
        plan_persisted = ap (persist (compiled_event plan)) same ∙ e.plan_persisted;
        evaluation_persisted = e.evaluation_persisted;
        review_persisted = review_persisted;
        follows_candidate = refl;
        follows_plan = refl;
        follows_evaluation = refl;
        shown_plan = ap (λ r. r.plan) own;
        plan_event_id = ap (λ r. r.plan_event_id) own;
        shown_evaluation = ap (λ r. r.evaluation) own;
        evaluation_event_id = ap (λ r. r.evaluation_event_id) own;
        shown_review = ap (λ r. r.approval_review) own;
        shown_body = ap (λ r. r.approval_review_body) own;
        review_event_id = ap (λ r. r.review_event_id) own;
      }
