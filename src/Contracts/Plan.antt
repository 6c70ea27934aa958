-- ===== src/Contracts/Plan.antt =====
-- contracts/models.py: the untrusted proposal, and the plan that is compiled from it.
use airflow_dq_agent.Prelude.{ℕ, String, Bool, List, [], ◌∷◌, Option}
use airflow_dq_agent.Contracts.Value.{Value, list, tuple, Params, Datetime}

pub data DestructiveRank : Type 0 where
  none low medium high critical : DestructiveRank

pub record QualityEvidence : Type 0 where
  pub check_id : String
  pub contract_id : String

-- The constructor refuses empty evidence and empty texts.
pub record CandidateAction : Type 0 where
  pub action_id : String
  pub evidence : List QualityEvidence
  pub rationale : String

-- `confidence` is a quotient.
pub record Proposal : Type 0 where
  pub proposal_id : String
  pub fingerprint : Option String
  pub summary : String
  pub root_cause_hypothesis : String
  pub candidate_actions : List CandidateAction
  pub do_not_apply_reasons : List String
  pub confidence : ℕ × ℕ

-- The constructor refuses an empty fingerprint.
pub record TargetSet : Type 0 where
  pub count : ℕ
  pub fingerprint : String

pub record ExecutablePlanItem : Type 0 where
  pub item_id : String
  pub action_id : String
  pub table : String
  pub params : Params
  pub evidence : List QualityEvidence
  pub target_set : TargetSet
  pub policy_fingerprint : String

-- `ExecutablePlanItem.freeze_params`
abbrev pub freeze : Value → Value
freeze (list vs) = tuple vs
freeze v = v

abbrev pub freeze_params : Params → Params
freeze_params [] = []
freeze_params ((k, v) ∷ d) = (k, freeze v) ∷ freeze_params d

pub record NonExecutablePlanItem : Type 0 where
  pub item_id : String
  pub evidence : List QualityEvidence
  pub reason : String

pub data PlanItem : Type 0 where
  executable : ExecutablePlanItem → PlanItem
  non_executable : NonExecutablePlanItem → PlanItem

-- `[item for item in items if isinstance(item, ExecutablePlanItem)]`
abbrev pub executable_items : List PlanItem → List ExecutablePlanItem
executable_items [] = []
executable_items (executable item ∷ items) = item ∷ executable_items items
executable_items (non_executable item ∷ items) = executable_items items

-- `[item.reason for item in items if isinstance(item, NonExecutablePlanItem)]`
abbrev pub block_reasons : List PlanItem → List String
block_reasons [] = []
block_reasons (executable item ∷ items) = block_reasons items
block_reasons (non_executable item ∷ items) = item.reason ∷ block_reasons items

pub record RemediationPlan : Type 0 where
  pub plan_id : String
  pub quality_run_id : String
  pub candidate_fingerprint : String
  pub policy_fingerprint : String
  pub items : List PlanItem
  pub blocked : Bool
  pub blocked_reasons : List String
  pub warehouse_environment_id : String
  pub fingerprint : String
  pub compiled_at : Datetime
