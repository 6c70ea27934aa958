-- ===== src/Hitl/Output.antt =====
-- hitl.py: parsing the provider's approval output.
use airflow_dq_agent.Prelude.{
  String, Bool, true, false, ◌&&◌, List, [], ◌∷◌, Option, none, some, ◌==◌, ◌!=◌, get, member,
  strip, replace_z, if◌then◌else◌,
}
use airflow_dq_agent.Errors.{
  Error, Result, ok, err, permission_error, Refusing, Reason, malformed_options,
  responder_not_allowed, note_required, refuse_if, ◌>>=◌, ◌>>◌,
}
use airflow_dq_agent.Contracts.Value.{
  pos, Datetime, Value, null, bool, int, float, text, timestamp, list, tuple, dict, Values, nil,
  cons, end, Params, find_field,
}
use airflow_dq_agent.Contracts.Decision.{DecisionKind, approve, reject, timeout, HumanDecision}
use airflow_dq_agent.Environment.{Env}
use airflow_dq_agent.Traces.Lineage.{Stamp}
use Prim.Native.Nat.{zero}

abbrev pub refuse : Reason → Error
refuse = permission_error Refusing.human_decision

-- `str(field)`
abbrev text_of : Env → Value → String
text_of env (text s) = s
text_of env v = env.str v

abbrev text_of? : Env → Option Value → Option String
text_of? env none = none
text_of? env (some null) = none
text_of? env (some v) = some (text_of env v)

-- `_actor_field`, of a mapping; the output crosses a trigger as JSON and holds no other object.
unfoldable pub actor_field : Env → Option Value → String → Option String
actor_field env (some (dict fs)) key = text_of? env (find_field key fs)
actor_field env _ key = none

abbrev note_text : Option Value → Option String
note_text (some (text s)) = some (strip s)
note_text _ = none

abbrev approval_note : Option Value → Option String
approval_note (some (dict fs)) = note_text (find_field "value" fs)
approval_note v = note_text v

-- `_note`
unfoldable pub note_of : Option Value → Option String
note_of (some (dict fs)) = approval_note (find_field "approval_note" fs)
note_of _ = none

abbrev parsed_or : Datetime → Option Datetime → Datetime
parsed_or now none = now
parsed_or now (some t) = t

-- `_responded_at`
unfoldable pub responded_at : Env → Datetime → Option Value → Datetime
responded_at env now (some (timestamp t)) = t
responded_at env now (some (text s)) = parsed_or now (env.fromisoformat (replace_z s))
responded_at env now _ = now

-- `bool(value)`
abbrev pub truthy : Option Value → Bool
truthy none = false
truthy (some null) = false
truthy (some (bool b)) = b
truthy (some (int (pos zero))) = false
truthy (some (float (pos zero) _)) = false
truthy (some (text s)) = s != ""
truthy (some (list nil)) = false
truthy (some (tuple nil)) = false
truthy (some (dict end)) = false
truthy _ = true

-- A list of texts, or `None` for anything else.
abbrev pub all_texts : Values → Option (List String)
all_texts nil = some []
all_texts (cons (text s) vs) = elim (all_texts vs) [ none ↦ none | some ss ↦ some (s ∷ ss) ]
all_texts (cons _ vs) = none

abbrev pub chosen_options : Option Value → Result (List String)
chosen_options (some (list vs)) = elim (all_texts vs) [
  | none ↦ err (refuse malformed_options)
  | some options ↦ ok options
]
chosen_options _ = err (refuse malformed_options)

abbrev allowed_name : Option String → List String → Result String
allowed_name none approver_ids = err (refuse responder_not_allowed)
allowed_name (some actor_name) approver_ids =
    if member actor_name approver_ids then ok actor_name else err (refuse responder_not_allowed)

-- The responder's identifier if it is allow-listed, else the name if that is.
abbrev pub allowed_actor : Option String → Option String → List String → Result String
allowed_actor none actor_name approver_ids = allowed_name actor_name approver_ids
allowed_actor (some actor_id) actor_name approver_ids =
    if member actor_id approver_ids then ok actor_id else allowed_name actor_name approver_ids

-- `not note`
abbrev pub is_blank : Option String → Bool
is_blank none = true
is_blank (some s) = s == ""

pub record Draw : Type 0 where
  pub decision_id : String
  pub now : Datetime
  pub stamp : Stamp

abbrev pub new_decision : Draw → DecisionKind → String → Option String → Datetime → HumanDecision
new_decision draw kind actor note decided_at = record {
  decision_id = draw.decision_id;
  fingerprint = none;
  review_fingerprint = none;
  audit_event_id = none;
  decided_at = decided_at;
  decision = kind;
  actor = actor;
  note = note;
}

abbrev parse_response : Env → Draw → List String → Params → Result HumanDecision
parse_response env draw approver_ids output = do
  chosen ← chosen_options (get "chosen_options" output)
  let responder = get "responded_by_user" output
  actor ←
      allowed_actor (actor_field env responder "id") (actor_field env responder "name") approver_ids
  let note = note_of (get "params_input" output)
  refuse_if (member "Approve" chosen && is_blank note) (refuse note_required)
  ok (
      new_decision draw (if member "Approve" chosen then approve else reject) actor note
        (responded_at env draw.now (get "responded_at" output)))

unfoldable pub parse_approval_output : Env → Draw → List String → Params → Result HumanDecision
parse_approval_output env draw approver_ids output =
    if truthy (get "timedout" output)
    then ok (
        new_decision draw timeout "airflow-timeout" none
          (responded_at env draw.now (get "responded_at" output)))
    else parse_response env draw approver_ids output
