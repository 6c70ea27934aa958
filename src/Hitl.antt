-- ===== src/Hitl.antt =====
-- hitl.py: the provider's approval output becomes a validated, durably audited human decision.
-- Identifiers and times that the source draws afresh come in a `Draw`.
mod Output
pub mod Recorded
pub mod Audited
pub mod Admitted
unfoldable pub use Output.*
use airflow_dq_agent.Prelude.{
  String, Bool, true, false, not, ◌&&◌, ◌||◌, List, [], ◌∷◌, Option, none, some, ◌==◌, ◌!=◌, get,
  member, strip, replace_z, if◌then◌else◌,
}
use airflow_dq_agent.Errors.{
  Error, Result, ok, err, permission_error, Refusing, Reason, malformed_options,
  responder_not_allowed, note_required, unknown_outcome, timeout_identity, actor_not_allowed,
  approval_note_required, refuse_if, ◌>>=◌, ◌>>◌,
}
use airflow_dq_agent.Contracts.Value.{
  ℤ, pos, Datetime, Value, null, bool, int, float, text, timestamp, list, tuple, dict, Values, nil,
  cons, Fields, end, field, Params, find_field,
}
use airflow_dq_agent.Contracts.Decision.{
  DecisionKind, approve, reject, timeout, shadow_skip, is_approve, HumanDecision, DecisionBinding,
  AuditEvent,
}
use airflow_dq_agent.Environment.{Env}
use airflow_dq_agent.Planning.Payload.{human_decision_fingerprint}
use airflow_dq_agent.Traces.Lineage.{Stamp, Predecessor, resolved_binding, decision_event}
use Prim.Native.Nat.{zero, suc}

-- `not decision.note or not decision.note.strip()`
abbrev pub lacks_note : Option String → Bool
lacks_note none = true
lacks_note (some s) = s == "" || strip s == ""

abbrev validate_answer : List String → HumanDecision → Result HumanDecision
validate_answer approver_ids decision = do
  refuse_if (not (member decision.actor approver_ids)) (refuse actor_not_allowed)
  refuse_if (is_approve decision.decision && lacks_note decision.note)
      (refuse approval_note_required)
  ok decision

abbrev validate_kind : DecisionKind → List String → HumanDecision → Result HumanDecision
validate_kind shadow_skip approver_ids decision = err (refuse unknown_outcome)
validate_kind timeout approver_ids decision = do
  refuse_if (decision.actor != "airflow-timeout") (refuse timeout_identity)
  ok decision
validate_kind approve approver_ids decision = validate_answer approver_ids decision
validate_kind reject approver_ids decision = validate_answer approver_ids decision

unfoldable pub validate_human_decision : List String → HumanDecision → Result HumanDecision
validate_human_decision approver_ids decision =
    validate_kind decision.decision approver_ids decision

-- `HumanDecision | Mapping[str, Any]`
pub data DecisionInput : Type 0 where
  decided : HumanDecision → DecisionInput
  provided : Params → DecisionInput

abbrev pub parse_input : Env → Draw → List String → DecisionInput → Result HumanDecision
parse_input env draw approver_ids (decided decision) = ok decision
parse_input env draw approver_ids (provided output) =
    parse_approval_output env draw approver_ids output

-- `if resolved.review_fingerprint and resolved.review_fingerprint.strip()`
abbrev pub bind_review : Option String → HumanDecision → HumanDecision
bind_review none decision = decision
bind_review (some s) decision =
    if s == "" || strip s == "" then decision else record decision { review_fingerprint = some s }

abbrev pub fingerprinted : Env → HumanDecision → HumanDecision
fingerprinted env decision = record decision {
  fingerprint = some (human_decision_fingerprint env decision);
}

-- The decision that is audited, before anything is persisted.
unfoldable pub prepare_decision :
    Env → Draw → List String → DecisionInput → Option DecisionBinding → Result HumanDecision
unfolding parse_approval_output validate_human_decision
prepare_decision env draw approver_ids input binding = do
  parsed ← parse_input env draw approver_ids input
  validated ← validate_human_decision approver_ids parsed
  ok (bind_review (resolved_binding binding).review_fingerprint (fingerprinted env validated))

abbrev pub bound_to : AuditEvent → HumanDecision → HumanDecision
bound_to event decision = record decision {
  audit_event_id = some event.event_id;
  fingerprint = event.decision_fingerprint;
}

-- `persist` and `complete_provider` act on a state of the caller's, and may raise.
module _ {S : Type 0} (env : Env) (persist : AuditEvent → S → Result (Unit {0}) × S) (draw : Draw)
    (approver_ids : List String) (quality_run_id : String) (predecessor : Predecessor)
    (binding : Option DecisionBinding) where
  abbrev pub audit_event : HumanDecision → AuditEvent
  audit_event decision = decision_event env draw.stamp quality_run_id decision predecessor binding

  abbrev return_bound : HumanDecision → Result (Unit {0}) × S → Result HumanDecision × S
  return_bound decision (ok _, s) = (ok (bound_to (audit_event decision) decision), s)
  return_bound decision (err e, s) = (err e, s)

  abbrev persist_decision : Result HumanDecision → S → Result HumanDecision × S
  persist_decision (err e) s = (err e, s)
  persist_decision (ok decision) s = return_bound decision (persist (audit_event decision) s)

  unfoldable pub record_human_decision : DecisionInput → S → Result HumanDecision × S
  record_human_decision input s =
      persist_decision (prepare_decision env draw approver_ids input binding) s

  abbrev return_decision : HumanDecision → Result (Unit {0}) × S → Result HumanDecision × S
  return_decision decision (ok _, s) = (ok decision, s)
  return_decision decision (err e, s) = (err e, s)

  abbrev complete_after :
      (S → Result (Unit {0}) × S) → Result HumanDecision × S → Result HumanDecision × S
  complete_after complete_provider (err e, s) = (err e, s)
  complete_after complete_provider (ok decision, s) = return_decision decision (complete_provider s)

  unfoldable pub audit_then_complete_approval :
      (S → Result (Unit {0}) × S) → Params → S → Result HumanDecision × S
  unfolding record_human_decision
  audit_then_complete_approval complete_provider output s =
      complete_after complete_provider (record_human_decision (provided output) s)
