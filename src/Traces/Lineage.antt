-- ===== src/Traces/Lineage.antt =====
-- traces/lineage.py: the factories of audit-lineage events. The identifier and the time of an event
-- are fresh: a `uuid4().hex` and the clock's reading, which a caller's `Stamp` gives.
use airflow_dq_agent.Prelude.{
  ℕ, ◌+◌, String, Bool, List, [], ◌∷◌, map, Option, none, some, ◌!=◌, if◌then◌else◌,
}
use airflow_dq_agent.Contracts.Value.{text, array, Datetime}
use airflow_dq_agent.Contracts.Report.{QualitySuiteReport}
use airflow_dq_agent.Contracts.Plan.{
  Proposal, ExecutablePlanItem, RemediationPlan, executable_items,
}
use airflow_dq_agent.Contracts.Evaluation.{EvalReport, ApprovalReview}
use airflow_dq_agent.Contracts.Decision.{
  DecisionKind, approve, reject, timeout, shadow_skip, kind_text, HumanDecision, DecisionBinding,
  ApplyAdmission, AppliedStepEvidence, EventKind, AuditEvent,
}
use airflow_dq_agent.Environment.{Env, report_payload_fingerprint}
use airflow_dq_agent.Planning.Payload.{human_decision_fingerprint}
use airflow_dq_agent.Planning.Compiler.{proposal_value}
use airflow_dq_agent.Planning.Review.{review_value}
use airflow_dq_agent.Traces.Payload.{event_value}
use Prim.Native.String.{◌++◌}

pub record Stamp : Type 0 where
  pub event_id : String
  pub occurred_at : Datetime

-- The event with every optional field at its default, and its fingerprint pending.
abbrev pub draft : Stamp → EventKind → String → List String → AuditEvent
draft stamp kind quality_run_id predecessor_ids = record {
  event_id = stamp.event_id;
  kind = kind;
  occurred_at = stamp.occurred_at;
  quality_run_id = quality_run_id;
  predecessor_ids = predecessor_ids;
  report_id = none;
  report_fingerprint = none;
  proposal_id = none;
  candidate_fingerprint = none;
  plan_id = none;
  plan_fingerprint = none;
  policy_fingerprint = none;
  target_count = none;
  target_set_fingerprint = none;
  evaluation_id = none;
  evaluation_fingerprint = none;
  review_fingerprint = none;
  review_payload = none;
  decision_id = none;
  decision_fingerprint = none;
  decision_outcome = none;
  decision_actor = none;
  decision_note = none;
  apply_result_id = none;
  apply_result_fingerprint = none;
  apply_steps = [];
  reasons = [];
  fingerprint = "pending";
}

-- The end of `_event`: the fingerprint is taken of the whole event but itself.
abbrev pub sealed : Env → AuditEvent → AuditEvent
sealed env event = record event { fingerprint = env.canonical_fingerprint (event_value event) }

-- `AuditEvent | str`
pub data Predecessor : Type 0 where
  event : AuditEvent → Predecessor
  identifier : String → Predecessor

abbrev pub predecessor_id : Predecessor → String
predecessor_id (event e) = e.event_id
predecessor_id (identifier s) = s

-- `a or b`
abbrev pub text_or : Option String → String → String
text_or none b = b
text_or (some a) b = if a != "" then a else b

unfoldable pub quality_report_event : Env → Stamp → QualitySuiteReport → AuditEvent
quality_report_event env stamp report =
    sealed env (record (draft stamp EventKind.quality_report report.run_id []) {
      report_id = some report.report_id;
      report_fingerprint =
          some (text_or report.fingerprint (report_payload_fingerprint env report));
    })

unfoldable pub candidate_proposal_event :
    Env → Stamp → QualitySuiteReport → Proposal → Predecessor → AuditEvent
candidate_proposal_event env stamp report proposal predecessor =
    let bare = record proposal { fingerprint = none } in
    sealed env
      (record (draft stamp EventKind.candidate_proposal report.run_id
        (predecessor_id predecessor ∷ [])) {
          proposal_id = some proposal.proposal_id;
          candidate_fingerprint = some (env.canonical_fingerprint (proposal_value bare));
        })

abbrev pub total_targets : List ExecutablePlanItem → ℕ
total_targets [] = 0
total_targets (item ∷ items) = item.target_set.count + total_targets items

unfoldable pub plan_event : Env → Stamp → RemediationPlan → Predecessor → AuditEvent
plan_event env stamp plan predecessor =
    let items = executable_items plan.items in
    let kind = if plan.blocked then EventKind.plan_blocked else EventKind.plan_compiled in
    let targets =
      env.canonical_fingerprint (array (map (λ item. text item.target_set.fingerprint) items)) in
    sealed env (record (draft stamp kind plan.quality_run_id (predecessor_id predecessor ∷ [])) {
      plan_id = some plan.plan_id;
      plan_fingerprint = some plan.fingerprint;
      policy_fingerprint = some plan.policy_fingerprint;
      target_count = some (total_targets items);
      target_set_fingerprint = some targets;
      reasons = plan.blocked_reasons;
    })

unfoldable pub evaluation_event :
    Env → Stamp → RemediationPlan → EvalReport → Predecessor → AuditEvent
evaluation_event env stamp plan evaluation predecessor =
    sealed env
      (record (draft stamp EventKind.evaluation plan.quality_run_id
        (predecessor_id predecessor ∷ [])) {
          plan_id = some plan.plan_id;
          plan_fingerprint = some plan.fingerprint;
          policy_fingerprint = some plan.policy_fingerprint;
          evaluation_id = some evaluation.evaluation_id;
          evaluation_fingerprint = evaluation.fingerprint;
          reasons = evaluation.blocked_reasons;
        })

unfoldable pub review_event : Env → Stamp → ApprovalReview → EvalReport → Predecessor → AuditEvent
review_event env stamp review evaluation predecessor =
    sealed env
      (record (draft stamp EventKind.approval_review review.quality_run_id
        (predecessor_id predecessor ∷ [])) {
          plan_id = some review.plan_id;
          plan_fingerprint = some review.plan_fingerprint;
          policy_fingerprint = some review.policy_fingerprint;
          evaluation_id = some evaluation.evaluation_id;
          evaluation_fingerprint = evaluation.fingerprint;
          review_fingerprint = some review.fingerprint;
          review_payload = some (review_value review);
        })

abbrev pub decision_event_kind : DecisionKind → EventKind
decision_event_kind approve = EventKind.human_approved
decision_event_kind reject = EventKind.human_rejected
decision_event_kind timeout = EventKind.human_timed_out
decision_event_kind shadow_skip = EventKind.human_rejected

abbrev pub no_binding : DecisionBinding
no_binding = record {
  plan_id = none;
  plan_fingerprint = none;
  review_fingerprint = none;
  evaluation_id = none;
  evaluation_fingerprint = none;
}

-- `binding or DecisionBinding()`
abbrev pub resolved_binding : Option DecisionBinding → DecisionBinding
resolved_binding none = no_binding
resolved_binding (some binding) = binding

unfoldable pub decision_event :
    Env → Stamp → String → HumanDecision → Predecessor → Option DecisionBinding → AuditEvent
decision_event env stamp quality_run_id decision predecessor binding =
    let bound = resolved_binding binding in
    let fingerprint = human_decision_fingerprint env decision in
    sealed env
      (record (draft stamp (decision_event_kind decision.decision) quality_run_id
        (predecessor_id predecessor ∷ [])) {
          plan_id = bound.plan_id;
          plan_fingerprint = bound.plan_fingerprint;
          evaluation_id = bound.evaluation_id;
          evaluation_fingerprint = bound.evaluation_fingerprint;
          review_fingerprint = decision.review_fingerprint;
          decision_id = some decision.decision_id;
          decision_fingerprint = some fingerprint;
          decision_outcome = some (kind_text decision.decision);
          decision_actor = some decision.actor;
          decision_note = decision.note;
          reasons = ("decision_fingerprint=" ++ fingerprint) ∷ [];
        })

abbrev apply_predecessor : EvalReport → Option ApplyAdmission → String
apply_predecessor evaluation none = text_or evaluation.audit_event_id evaluation.evaluation_id
apply_predecessor evaluation (some admission) = admission.decision_event_id

abbrev apply_kind : Bool → Bool → EventKind
apply_kind failed dry_run =
    if failed
    then EventKind.apply_failed
    else if dry_run
    then EventKind.dry_run
    else EventKind.apply_succeeded

unfoldable pub apply_result_event :
    Env
    → Stamp
    → RemediationPlan
    → EvalReport
    → Option ApplyAdmission
    → (result_id result_fingerprint : String) (dry_run : Bool) → List AppliedStepEvidence
    → List String
    → (failed : Bool) → AuditEvent
apply_result_event env stamp plan evaluation admission result_id result_fingerprint dry_run steps
      reasons failed =
    sealed env
      (record (draft stamp (apply_kind failed dry_run) plan.quality_run_id
        (apply_predecessor evaluation admission ∷ [])) {
          plan_id = some plan.plan_id;
          plan_fingerprint = some plan.fingerprint;
          policy_fingerprint =
              some
                (elim admission [ none ↦ plan.policy_fingerprint | some a ↦ a.policy_fingerprint ]);
          evaluation_id = some evaluation.evaluation_id;
          evaluation_fingerprint = evaluation.fingerprint;
          decision_id = elim admission [ none ↦ none | some a ↦ some a.decision_id ];
          apply_result_id = some result_id;
          apply_result_fingerprint = some result_fingerprint;
          apply_steps = steps;
          reasons = reasons;
        })
