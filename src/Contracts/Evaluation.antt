-- ===== src/Contracts/Evaluation.antt =====
-- contracts/models.py: evaluation scores and reports, and the review that a human is shown.
use airflow_dq_agent.Prelude.{ℕ, String, Bool, List, Option, Dict}
use airflow_dq_agent.Contracts.Value.{Value}

-- `score` is a quotient: a fraction between 0 and 1.
pub record EvalScore : Type 0 where
  pub name : String
  pub score : ℕ × ℕ
  pub passed : Bool
  pub rationale : String
  pub details : Dict Value

pub record EvalReport : Type 0 where
  pub evaluation_id : String
  pub audit_event_id : Option String
  pub plan_id : Option String
  pub plan_fingerprint : Option String
  pub policy_fingerprint : Option String
  pub target_count : Option ℕ
  pub target_set_fingerprint : Option String
  pub fingerprint : Option String
  pub passed : Bool
  pub scores : List EvalScore
  pub blocked_reasons : List String
  pub summary_markdown : String

pub record ApprovalReviewItem : Type 0 where
  pub action_id : String
  pub table : String
  pub evidence_check_ids : List String
  pub target_count : ℕ
  pub target_fingerprint : String
  pub mutates : Bool
  pub reversible : Bool

pub record ApprovalReviewScore : Type 0 where
  pub name : String
  pub score : ℕ × ℕ
  pub passed : Bool
  pub rationale : String

-- `admission_ttl_hours` is a quotient.
pub record ApprovalReview : Type 0 where
  pub plan_id : String
  pub plan_fingerprint : String
  pub policy_fingerprint : String
  pub quality_run_id : String
  pub items : List ApprovalReviewItem
  pub evaluation_id : String
  pub evaluation_fingerprint : String
  pub evaluation_passed : Bool
  pub evaluation_scores : List ApprovalReviewScore
  pub admission_ttl_hours : ℕ × ℕ
  pub expiry_guidance : String
  pub fingerprint : String
