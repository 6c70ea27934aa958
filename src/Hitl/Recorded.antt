-- ===== src/Hitl/Recorded.antt =====
-- hitl.py: which decisions are recorded.
use airflow_dq_agent.Prelude.{
  strip, lstrip, rstrip, ap, ◌∙◌, ==→≡, String, ◌≡◌, refl, sym, subst, Bool-cases, ◌||◌, true,
  false, ◌↔◌, inl, inr, List, Option, none, some, ◌==◌, eq_iff, member, strip, arith,
}
use airflow_dq_agent.Errors.{ok, >>=-eq-ok}
use airflow_dq_agent.Contracts.Decision.{
  DecisionKind, approve, reject, timeout, shadow_skip, HumanDecision, DecisionBinding,
}
use airflow_dq_agent.Environment.{Env}
use airflow_dq_agent.Planning.Payload.{human_decision_fingerprint, decision_payload}
use airflow_dq_agent.Traces.Lineage.{resolved_binding}
use airflow_dq_agent.Hitl.{
  validate_human_decision, lacks_note, Draw, DecisionInput, parse_input, prepare_decision,
  fingerprinted, bind_review,
}

-- A note with a character that is not white space.
abbrev pub IsNoted : Option String → Type 0
IsNoted note = (s : String) × (note ≡ some s) × ((strip s == "") ≡ false)

-- The attributable-approval matrix.
abbrev pub IsRecordable : List String → HumanDecision → DecisionKind → Type 0
IsRecordable approver_ids decision approve =
    (member decision.actor approver_ids ≡ true) × IsNoted decision.note
IsRecordable approver_ids decision reject = member decision.actor approver_ids ≡ true
IsRecordable approver_ids decision timeout = decision.actor ≡ "airflow-timeout"
IsRecordable approver_ids decision shadow_skip = ⊥

strip-empty : (s : String) → s ≡ "" → (strip s == "") ≡ true
unfolding strip lstrip rstrip
strip-empty s h = ap (λ t. strip t == "") h ∙ refl

not_blank : (s : String) → (strip s == "") ≡ false → (s == "" || strip s == "") ≡ false
not_blank s h = elim (Bool-cases (s == "")) [
  | inl empty ↦ let e = strip-empty s (==→≡ s "" empty) in ground arith
  | inr filled ↦ ground arith
]

-- The test of the note, by what it is about.
lacks_note_iff : (note : Option String) → (lacks_note note ≡ false) ↔ IsNoted note
lacks_note_iff none = (λ h. cc, λ h. let (t, given, filled) = h in cc)
lacks_note_iff (some s) = (
  λ h. (s, refl, ground arith),
  λ h.
      let (t, given, filled) = h in
      let same : t ≡ s = cc in not_blank s (subst (λ u. (strip u == "") ≡ false) same filled),
)

matrix :
    (approver_ids : List String) (decision : HumanDecision) (kind : DecisionKind)
    → decision.decision ≡ kind
    → (validate_human_decision approver_ids decision ≡ ok decision)
      ↔ IsRecordable approver_ids decision kind
unfolding validate_human_decision
matrix approver_ids decision approve k = (
  λ h.
      let parts : (member decision.actor approver_ids ≡ true) × (lacks_note decision.note ≡ false) =
        ground arith in
      (parts.0, (lacks_note_iff decision.note).0 parts.1),
  λ h. let noted = (lacks_note_iff decision.note).1 h.1 in let listed = h.0 in ground arith,
)
matrix approver_ids decision reject k = (λ h. ground arith, λ h. ground arith)
matrix approver_ids decision timeout k = (
  λ h. ground (arith, eq_iff decision.actor "airflow-timeout"),
  λ h. ground (arith, eq_iff decision.actor "airflow-timeout"),
)
matrix approver_ids decision shadow_skip k = (λ h. ground arith, λ h. absurd h)

-- A human decision passes validation exactly in these cases: an approval by an allow-listed actor
-- with a note that is not blank, a rejection by an allow-listed actor, or a timeout with the
-- timeout's own identity. It is returned unchanged.
pub validate_human_decision_iff :
    (approver_ids : List String) (decision : HumanDecision)
    → (validate_human_decision approver_ids decision ≡ ok decision)
      ↔ IsRecordable approver_ids decision decision.decision
validate_human_decision_iff approver_ids decision =
    matrix approver_ids decision decision.decision refl

pub validated_unchanged :
    (approver_ids : List String) (decision validated : HumanDecision)
    → validate_human_decision approver_ids decision ≡ ok validated
    → validated ≡ decision
unfolding validate_human_decision
validated_unchanged approver_ids decision validated h = go decision.decision refl
  where
    go : (kind : DecisionKind) → decision.decision ≡ kind → validated ≡ decision
    go approve k = ground arith
    go reject k = ground arith
    go timeout k = ground arith
    go shadow_skip k = ground arith

validated_kind :
    (approver_ids : List String) (decision validated : HumanDecision)
    → validate_human_decision approver_ids decision ≡ ok validated
    → IsRecordable approver_ids validated validated.decision
validated_kind approver_ids decision validated h =
    let same = validated_unchanged approver_ids decision validated h in
    (validate_human_decision_iff approver_ids validated).0
      (subst (λ d. validate_human_decision approver_ids d ≡ ok validated) (sym same) h)

-- Binding a review, a fingerprint or an event changes nothing that the fingerprint is taken of.
pub fingerprint-bind_review :
    (env : Env) (review : Option String) (decision : HumanDecision)
    → human_decision_fingerprint env (bind_review review decision)
      ≡ human_decision_fingerprint env decision
unfolding human_decision_fingerprint decision_payload
fingerprint-bind_review env none decision = refl
fingerprint-bind_review env (some s) decision = elim (Bool-cases (s == "" || strip s == "")) [
  | inl blank ↦ rw blank
  | inr bound ↦ rw bound
]

-- Whatever is prepared to be audited is an attributable decision.
pub prepare_decision-IsRecordable :
    (env : Env) (draw : Draw) (approver_ids : List String) (input : DecisionInput)
    (binding : Option DecisionBinding) (prepared : HumanDecision)
    → prepare_decision env draw approver_ids input binding ≡ ok prepared
    → IsRecordable approver_ids prepared prepared.decision
unfolding prepare_decision
prepare_decision-IsRecordable env draw approver_ids input binding prepared h =
    let (parsed, read, h₁) = >>=-eq-ok (parse_input env draw approver_ids input) _ h in
    let (validated, valid, h₂) = >>=-eq-ok (validate_human_decision approver_ids parsed) _ h₁ in
    let kept = validated_kind approver_ids parsed validated valid in
    let review = (resolved_binding binding).review_fingerprint in
    let same : bind_review review (fingerprinted env validated) ≡ prepared = cc in
    subst (λ d. IsRecordable approver_ids d d.decision) same
      (bound_kind review (fingerprinted env validated) (fingerprinted_kind validated kept))
  where
    fingerprinted_kind :
        (d : HumanDecision)
        → IsRecordable approver_ids d d.decision
        → IsRecordable approver_ids (fingerprinted env d) (fingerprinted env d).decision
    fingerprinted_kind d k = go d.decision k
      where
        go :
            (kind : DecisionKind)
            → IsRecordable approver_ids d kind
            → IsRecordable approver_ids (fingerprinted env d) kind
        go approve k = k
        go reject k = k
        go timeout k = k
        go shadow_skip k = k

    bound_kind :
        (review : Option String) (d : HumanDecision)
        → IsRecordable approver_ids d d.decision
        → IsRecordable approver_ids (bind_review review d) (bind_review review d).decision
    bound_kind none d k = k
    bound_kind (some s) d k = elim (Bool-cases (s == "" || strip s == "")) [
      | inl blank ↦ rw blank k
      | inr bound ↦ rw bound (go d.decision k)
    ]
      where
        go :
            (kind : DecisionKind)
            → IsRecordable approver_ids d kind
            → IsRecordable approver_ids (record d { review_fingerprint = some s }) kind
        go approve k = k
        go reject k = k
        go timeout k = k
        go shadow_skip k = k
