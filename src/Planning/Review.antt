-- ===== src/Planning/Review.antt =====
-- planning/review.py: the sample-free review of a whole plan that a human is shown.
use airflow_dq_agent.Prelude.{ℕ, ◌*◌, String, [], ◌∷◌, map, nat_eq}
use airflow_dq_agent.Errors.{Result, ok, value_error, refuse_if, ◌>>=◌, ◌>>◌}
use airflow_dq_agent.Contracts.Value.{Value, text, bool, nat, float, pos, array, object}
use airflow_dq_agent.Contracts.Plan.{ExecutablePlanItem, RemediationPlan, executable_items}
use airflow_dq_agent.Contracts.Evaluation.{
  EvalScore, EvalReport, ApprovalReviewItem, ApprovalReviewScore, ApprovalReview,
}
use airflow_dq_agent.Actions.{mutates}
use airflow_dq_agent.Actions.Registered.{get_governed_action}
use airflow_dq_agent.Environment.{Env}
use airflow_dq_agent.Planning.Policy.{each}
use airflow_dq_agent.Planning.Integrity.{require_present}
use Prim.Native.String.{◌++◌}

-- A `timedelta` in microseconds; one that is negative is refused as zero is.
abbrev pub Timedelta : Type 0
Timedelta = ℕ

-- `ttl / timedelta(hours=1)`
abbrev pub ttl_hours : Timedelta → Result (ℕ × ℕ)
ttl_hours ttl = do
  refuse_if (nat_eq ttl 0) (value_error "Apply Admission TTL must be positive")
  ok (ttl, 3600 * (1000 * 1000))

abbrev pub expiry_guidance : Env → ℕ × ℕ → String
expiry_guidance env hours =
    "Apply Admission expires "
    ++ (env.format_g hours
        ++ " hours after the Human Decision. If it expires or Remediation Target Sets drift, recompile the Remediation Plan and request a new Human Decision; do not apply.")

unfoldable pub review_item : ExecutablePlanItem → Result ApprovalReviewItem
review_item item = do
  action ← get_governed_action item.action_id
  ok (record {
    action_id = item.action_id;
    table = item.table;
    evidence_check_ids = map (λ e. e.check_id) item.evidence;
    target_count = item.target_set.count;
    target_fingerprint = item.target_set.fingerprint;
    mutates = mutates action;
    reversible = action.metadata.reversible;
  })

abbrev pub review_score : EvalScore → ApprovalReviewScore
review_score score = record {
  name = score.name;
  score = score.score;
  passed = score.passed;
  rationale = score.rationale;
}

abbrev review_item_value : ApprovalReviewItem → Value
review_item_value item = object (
    ("action_id", text item.action_id)
    ∷ ("table", text item.table)
    ∷ ("evidence_check_ids", array (map text item.evidence_check_ids))
    ∷ ("target_count", nat item.target_count)
    ∷ ("target_fingerprint", text item.target_fingerprint)
    ∷ ("mutates", bool item.mutates)
    ∷ ("reversible", bool item.reversible)
    ∷ [])

abbrev review_score_value : ApprovalReviewScore → Value
review_score_value score = object (
    ("name", text score.name)
    ∷ ("score", float (pos score.score.0) score.score.1)
    ∷ ("passed", bool score.passed)
    ∷ ("rationale", text score.rationale)
    ∷ [])

-- The dictionary that is fingerprinted: every field of the review but its fingerprint.
unfoldable pub review_payload : ApprovalReview → Value
review_payload r = object (
    ("plan_id", text r.plan_id)
    ∷ ("plan_fingerprint", text r.plan_fingerprint)
    ∷ ("policy_fingerprint", text r.policy_fingerprint)
    ∷ ("quality_run_id", text r.quality_run_id)
    ∷ ("items", array (map review_item_value r.items))
    ∷ ("evaluation_id", text r.evaluation_id)
    ∷ ("evaluation_fingerprint", text r.evaluation_fingerprint)
    ∷ ("evaluation_passed", bool r.evaluation_passed)
    ∷ ("evaluation_scores", array (map review_score_value r.evaluation_scores))
    ∷ ("admission_ttl_hours", float (pos r.admission_ttl_hours.0) r.admission_ttl_hours.1)
    ∷ ("expiry_guidance", text r.expiry_guidance)
    ∷ [])

-- `review.model_dump(mode="json")`
unfoldable pub review_value : ApprovalReview → Value
review_value r = object (
    ("plan_id", text r.plan_id)
    ∷ ("plan_fingerprint", text r.plan_fingerprint)
    ∷ ("policy_fingerprint", text r.policy_fingerprint)
    ∷ ("quality_run_id", text r.quality_run_id)
    ∷ ("items", array (map review_item_value r.items))
    ∷ ("evaluation_id", text r.evaluation_id)
    ∷ ("evaluation_fingerprint", text r.evaluation_fingerprint)
    ∷ ("evaluation_passed", bool r.evaluation_passed)
    ∷ ("evaluation_scores", array (map review_score_value r.evaluation_scores))
    ∷ ("admission_ttl_hours", float (pos r.admission_ttl_hours.0) r.admission_ttl_hours.1)
    ∷ ("expiry_guidance", text r.expiry_guidance)
    ∷ ("fingerprint", text r.fingerprint)
    ∷ [])

abbrev pub with_fingerprint : Env → ApprovalReview → ApprovalReview
with_fingerprint env r = record r { fingerprint = env.canonical_fingerprint (review_payload r) }

unfoldable pub build_approval_review :
    Env → RemediationPlan → EvalReport → Timedelta → Result ApprovalReview
build_approval_review env plan evaluation ttl = do
  hours ← ttl_hours ttl
  items ← each review_item (executable_items plan.items)
  fingerprint ←
      require_present evaluation.fingerprint (value_error "evaluation has no immutable fingerprint")
  ok (
      with_fingerprint env (record {
        plan_id = plan.plan_id;
        plan_fingerprint = plan.fingerprint;
        policy_fingerprint = plan.policy_fingerprint;
        quality_run_id = plan.quality_run_id;
        items = items;
        evaluation_id = evaluation.evaluation_id;
        evaluation_fingerprint = fingerprint;
        evaluation_passed = evaluation.passed;
        evaluation_scores = map review_score evaluation.scores;
        admission_ttl_hours = hours;
        expiry_guidance = expiry_guidance env hours;
        fingerprint = "";
      }))
