-- ===== src/Apply/Recovery/Held.antt =====
-- apply/executor.py: the row that holds the event of a committed application, read back.
use airflow_dq_agent.Prelude.{
  ℕ, arith, String, ◌≡◌, refl, sym, ap, ◌∙◌, true, false, List, [], ◌∷◌, map, some, nat_eq, Dict,
  All, ◌==◌, eq_iff,
}
use airflow_dq_agent.Errors.{ok, refuse_if, ◌>>◌}
use airflow_dq_agent.Contracts.Value.{
  Value, null, text, text?, list, dict, Values, Fields, value_eq,
}
use airflow_dq_agent.Contracts.Plan.{RemediationPlan, executable_items}
use airflow_dq_agent.Contracts.Evaluation.{EvalReport}
use airflow_dq_agent.Contracts.Decision.{ApplyAdmission, AuditEvent}
use airflow_dq_agent.Actions.Render.{str_of}
use airflow_dq_agent.Environment.{Env}
use airflow_dq_agent.Apply.Results.{AppliedStep, ApplyResult, step_evidence, result_fingerprint}
use airflow_dq_agent.Apply.Recovery.{
  unbound, body_get, loaded, count_values, recover_steps, recover_row, require_bound, nonempty_text,
  bound, as_values,
}
use airflow_dq_agent.Apply.Transaction.{ApplyDraw, event_of, result_of}
use airflow_dq_agent.Traces.Payload.{event_body, event_value}
use airflow_dq_agent.Traces.Lineage.{apply_result_event}
use airflow_dq_agent.Apply.Progress.{AreStepsOf}
use airflow_dq_agent.Warehouse.{CommittedRow}
use airflow_dq_agent.Apply.Recovery.Steps.{
  AreEvidenceOf, AreEvidenceOf-length, AreStepsOf-length, accepted, text_eq, then,
  IsNamedByContract, recover_steps-recorded,
}

abbrev value_get : Value → String → Value
value_get (dict body) key = body_get body key
value_get v key = null

-- The row holds the event: every text of its dump is in the JSON under its key, and so is the
-- evidence of its steps, in order.
pub record Holds (env : Env) (row : CommittedRow) (event : AuditEvent) : Type 0 where
  pub body : Fields
  pub decoded : loaded env row.event_body ≡ ok (dict body)
  pub texts :
      (key s : String) → value_get (event_body event) key ≡ text s → body_get body key ≡ text s
  pub entries : Values
  pub listed : body_get body "apply_steps" ≡ list entries
  pub evidence : AreEvidenceOf (count_values entries) event.apply_steps

require_bound-ok :
    (body : Fields) (wanted : Dict Value)
    → All (λ entry. value_eq (body_get body entry.0) entry.1 ≡ true) wanted
    → require_bound body wanted ≡ ok tt
unfolding require_bound
require_bound-ok body [] h = refl
require_bound-ok body ((key, value) ∷ rest) h = accepted _ _ h.0 ∙ require_bound-ok body rest h.1

nonempty_text-ok :
    (v : Value) (s : String) → v ≡ text s → (s == "") ≡ false → nonempty_text v ≡ ok s
nonempty_text-ok v s h k = ap nonempty_text h ∙ ap (λ b. refuse_if b unbound >> ok s) k

text_eq_left : (s : String) (v : Value) → v ≡ text s → value_eq (text s) v ≡ true
unfolding value_eq
text_eq_left s v h = ap (λ w. value_eq (text s) w) h ∙ (eq_iff s s).1 refl

nat_eq_self : (a b : ℕ) → a ≡ b → nat_eq a b ≡ true
nat_eq_self a b h = ground arith

module _ (env : Env) (plan : RemediationPlan) (evaluation : EvalReport) (draw : ApplyDraw)
    (run_id : String) (admission : ApplyAdmission) (steps : List AppliedStep) where
  abbrev event : AuditEvent
  event = event_of env plan evaluation draw run_id (some admission) false steps

  texts-bound :
      (row : CommittedRow)
      → admission.evaluation_id ≡ evaluation.evaluation_id
      → evaluation.fingerprint ≡ some admission.evaluation_fingerprint
      → (held : Holds env row event)
      → All (λ entry. value_eq (body_get held.body entry.0) entry.1 ≡ true) (bound plan admission)
  unfolding apply_result_event event_body event_value
  texts-bound row same_id same_fingerprint held = (
    text_eq _ _ (held.texts "kind" _ refl),
    (
      text_eq _ _ (held.texts "quality_run_id" _ refl),
      (
        text_eq _ _ (held.texts "plan_id" _ refl),
        (
          text_eq _ _ (held.texts "plan_fingerprint" _ refl),
          (
            text_eq _ _ (held.texts "policy_fingerprint" _ refl),
            (
              text_eq _ _ (held.texts "evaluation_id" _ (ap text (sym same_id))),
              (
                text_eq _ _ (held.texts "evaluation_fingerprint" _ (ap text? same_fingerprint)),
                (text_eq _ _ (held.texts "decision_id" _ refl), tt),
              ),
            ),
          ),
        ),
      ),
    ),
  )

module _ (env : Env) (plan : RemediationPlan) (evaluation : EvalReport) (draw : ApplyDraw)
    (admission : ApplyAdmission) (steps : List AppliedStep) (row : CommittedRow) where
  abbrev own_run : String
  own_run = str_of env row.run_id

  abbrev own_result : ApplyResult
  own_result = result_of env plan evaluation draw own_run (some admission) false steps

  pub recover_row-held :
      admission.evaluation_id ≡ evaluation.evaluation_id
      → evaluation.fingerprint ≡ some admission.evaluation_fingerprint
      → (draw.apply_result_id == "") ≡ false
      → (draw.stamp.event_id == "") ≡ false
      → All (IsNamedByContract env) (executable_items plan.items)
      → AreStepsOf env own_run (executable_items plan.items) steps
      → row.plan_id ≡ text plan.plan_id
      → Holds env row (event env plan evaluation draw own_run admission steps)
      → recover_row env plan admission row ≡ ok own_result
  unfolding recover_row apply_result_event event_body event_value
  recover_row-held same_id same_fingerprint result_id event_id named own logged held =
      let body = held.body in
      let fingerprint = result_fingerprint env plan (some admission) own_run false steps in
      let counts = nat_eq_self _ _ (
        AreEvidenceOf-length (count_values held.entries) (map step_evidence steps) held.evidence
        ∙ AreStepsOf-length env own_run (executable_items plan.items) steps own) in
      let wanted =
        texts-bound env plan evaluation draw own_run admission steps row same_id same_fingerprint
          held in
      then (loaded env row.event_body) _ held.decoded (
        accepted _ _ (text_eq row.plan_id plan.plan_id logged)
        ∙ then (require_bound body (bound plan admission)) _
            (require_bound-ok body (bound plan admission) wanted)
            (then (as_values (body_get body "apply_steps")) _ (ap as_values held.listed) (
              accepted _ _ counts
              ∙ then
                  (recover_steps env own_run (executable_items plan.items)
                    (count_values held.entries))
                  _
                  (recover_steps-recorded env own_run (executable_items plan.items)
                    (count_values held.entries) steps named own held.evidence)
                  (accepted _ _
                      (text_eq_left fingerprint _ (held.texts "apply_result_fingerprint" _ refl))
                    ∙ then (nonempty_text (body_get body "apply_result_id")) _
                        (nonempty_text-ok _ _ (held.texts "apply_result_id" _ refl) result_id)
                        (then (nonempty_text (body_get body "event_id")) _
                          (nonempty_text-ok _ _ (held.texts "event_id" _ refl) event_id) refl)))))
