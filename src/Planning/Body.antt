-- ===== src/Planning/Body.antt =====
-- planning/review.py: the text of a review that the human is shown.
use airflow_dq_agent.Prelude.{String, Bool, true, false, List, [], ◌∷◌, ◌++◌, decimal}
use airflow_dq_agent.Contracts.Value.{float, pos}
use airflow_dq_agent.Contracts.Evaluation.{ApprovalReviewItem, ApprovalReviewScore, ApprovalReview}
use airflow_dq_agent.Environment.{Env}
use Prim.Native.String.{◌++◌ as ◌<>◌}

-- `sep.join(lines)`
abbrev pub joined_by : String → List String → String
joined_by sep [] = ""
joined_by sep (x ∷ []) = x
joined_by sep (x ∷ (y ∷ ys)) = x <> (sep <> joined_by sep (y ∷ ys))

abbrev yes_no : Bool → String
yes_no true = "yes"
yes_no false = "no"

abbrev pub passed_text : Bool → String
passed_text true = "passed"
passed_text false = "failed"

abbrev score_line : Env → ApprovalReviewScore → String
score_line env score =
    "- "
    <> (score.name
        <> (": "
            <> (env.str (float (pos score.score.0) score.score.1)
                <> (" (" <> (passed_text score.passed <> (") — " <> score.rationale))))))

abbrev score_lines : Env → List ApprovalReviewScore → List String
score_lines env [] = []
score_lines env (score ∷ scores) = score_line env score ∷ score_lines env scores

abbrev item_lines : List ApprovalReviewItem → List String
item_lines [] = []
item_lines (item ∷ items) =
    ("- "
      <> (item.action_id
          <> (" on "
              <> (item.table
                  <> ("; mutates="
                      <> (yes_no item.mutates <> ("; reversible=" <> yes_no item.reversible)))))))
    ∷ ("  Quality Evidence: " <> joined_by ", " item.evidence_check_ids)
    ∷ ("  Remediation Target Set count="
        <> (decimal item.target_count <> (" fingerprint=" <> item.target_fingerprint)))
    ∷ item_lines items

abbrev items_or_none : List ApprovalReviewItem → List String
items_or_none [] = "- none" ∷ []
items_or_none (item ∷ items) = item_lines (item ∷ items)

unfoldable pub render_approval_review_body : Env → ApprovalReview → String
render_approval_review_body env review = joined_by "\n" (
    (("Remediation Plan " <> review.plan_id)
      ∷ ("Plan fingerprint: " <> review.plan_fingerprint)
      ∷ ("Check Policy fingerprint: " <> review.policy_fingerprint)
      ∷ ("Quality run: " <> review.quality_run_id)
      ∷ ("Review fingerprint: " <> review.fingerprint)
      ∷ ""
      ∷ ("Evaluation: " <> passed_text review.evaluation_passed)
      ∷ ("Evaluation id: " <> review.evaluation_id)
      ∷ ("Evaluation fingerprint: " <> review.evaluation_fingerprint)
      ∷ [])
    ++ (score_lines env review.evaluation_scores
        ++ (("" ∷ "Executable items:" ∷ [])
            ++ (items_or_none review.items
                ++ (""
                    ∷ ("Apply Admission TTL: "
                        <> (env.format_g review.admission_ttl_hours
                            <> " hours after the Human Decision."))
                    ∷ review.expiry_guidance
                    ∷ ""
                    ∷ "Approve the whole plan or reject it. A note is required."
                    ∷ [])))))
