-- ===== src/Apply/Recovery/Bound.antt =====
-- apply/executor.py: what a recovered result has been checked for.
use airflow_dq_agent.Prelude.{
  String, ◌≡◌, refl, sym, ap, subst, ◌∙◌, true, false, not, [], ◌∷◌, some, length, nat_eq, Dict,
  All, not-false, ==→≡, ◌==◌,
}
use airflow_dq_agent.Errors.{ok, >>=-eq-ok, refuse_if-eq-ok, ok-injective}
use airflow_dq_agent.Contracts.Value.{
  Value, null, text, bool, int, float, timestamp, date, dict, list, tuple, Fields, value_eq,
}
use airflow_dq_agent.Contracts.Plan.{RemediationPlan, executable_items}
use airflow_dq_agent.Contracts.Decision.{ApplyAdmission}
use airflow_dq_agent.Environment.{Env}
use airflow_dq_agent.Apply.Results.{ApplyResult, result_fingerprint}
use airflow_dq_agent.Apply.Recovery.{
  unbound, body_get, loaded, as_fields, as_values, count_values, nonempty_text, bound,
  require_bound, recover_steps, recover_row,
}
use airflow_dq_agent.Actions.Render.{str_of}
use airflow_dq_agent.Warehouse.{CommittedRow}

-- Only a text is equal to a text.
value_eq-text : (v : Value) (s : String) → value_eq v (text s) ≡ true → v ≡ text s
unfolding value_eq
value_eq-text null s h = cc
value_eq-text (bool true) s h = cc
value_eq-text (bool false) s h = cc
value_eq-text (int z) s h = cc
value_eq-text (float z d) s h = cc
value_eq-text (text t) s h = ap text (==→≡ t s h)
value_eq-text (timestamp t) s h = cc
value_eq-text (date d) s h = cc
value_eq-text (list vs) s h = cc
value_eq-text (tuple vs) s h = cc
value_eq-text (dict fs) s h = cc

-- The fields that are required have the required values.
require_bound-All :
    (body : Fields) (wanted : Dict Value)
    → require_bound body wanted ≡ ok tt
    → All (λ entry. value_eq (body_get body entry.0) entry.1 ≡ true) wanted
unfolding require_bound
require_bound-All body [] h = tt
require_bound-All body ((key, value) ∷ rest) h =
    let (equal, h₁) = refuse_if-eq-ok (not (value_eq (body_get body key) value)) unbound _ h in
    (not-false _ equal, require_bound-All body rest h₁)

-- The committed event names the plan, the evaluation, the decision and the policy of the payloads,
-- and its fingerprint is that of the result.
pub record IsBound (env : Env) (plan : RemediationPlan) (admission : ApplyAdmission)
    (row : CommittedRow) (result : ApplyResult) : Type 0 where
  pub body : Fields
  pub decoded : loaded env row.event_body ≡ ok (dict body)
  pub logged_plan : row.plan_id ≡ text plan.plan_id
  pub kind : body_get body "kind" ≡ text "apply_succeeded"
  pub quality_run_id : body_get body "quality_run_id" ≡ text plan.quality_run_id
  pub plan_id : body_get body "plan_id" ≡ text plan.plan_id
  pub plan_fingerprint : body_get body "plan_fingerprint" ≡ text plan.fingerprint
  pub policy_fingerprint : body_get body "policy_fingerprint" ≡ text admission.policy_fingerprint
  pub evaluation_id : body_get body "evaluation_id" ≡ text admission.evaluation_id
  pub evaluation_fingerprint :
      body_get body "evaluation_fingerprint" ≡ text admission.evaluation_fingerprint
  pub decision_id : body_get body "decision_id" ≡ text admission.decision_id
  pub result_id : body_get body "apply_result_id" ≡ text result.apply_result_id
  pub event_id :
      (id : String) × (result.audit_event_id ≡ some id) × (body_get body "event_id" ≡ text id)
  pub run : result.run_id ≡ str_of env row.run_id
  pub fingerprint :
      body_get body "apply_result_fingerprint"
      ≡ text (result_fingerprint env plan (some admission) result.run_id false result.steps)

as_fields-eq-ok : (v : Value) {body : Fields} → as_fields v ≡ ok body → v ≡ dict body
as_fields-eq-ok (dict fs) h = cc
as_fields-eq-ok null h = cc
as_fields-eq-ok (bool b) h = cc
as_fields-eq-ok (int z) h = cc
as_fields-eq-ok (float z d) h = cc
as_fields-eq-ok (text t) h = cc
as_fields-eq-ok (timestamp t) h = cc
as_fields-eq-ok (date d) h = cc
as_fields-eq-ok (list vs) h = cc
as_fields-eq-ok (tuple vs) h = cc

nonempty_text-eq-ok : (v : Value) {s : String} → nonempty_text v ≡ ok s → v ≡ text s
nonempty_text-eq-ok (text t) h =
    ap text (ok-injective (refuse_if-eq-ok (t == "") unbound (ok t) h).1)
nonempty_text-eq-ok null h = cc
nonempty_text-eq-ok (bool b) h = cc
nonempty_text-eq-ok (int z) h = cc
nonempty_text-eq-ok (float z d) h = cc
nonempty_text-eq-ok (timestamp t) h = cc
nonempty_text-eq-ok (date d) h = cc
nonempty_text-eq-ok (list vs) h = cc
nonempty_text-eq-ok (tuple vs) h = cc
nonempty_text-eq-ok (dict fs) h = cc

text-value_eq : (s : String) (v : Value) → value_eq (text s) v ≡ true → v ≡ text s
unfolding value_eq
text-value_eq s (text t) h = ap text (sym (==→≡ s t h))
text-value_eq s null h = cc
text-value_eq s (bool b) h = cc
text-value_eq s (int z) h = cc
text-value_eq s (float z d) h = cc
text-value_eq s (timestamp t) h = cc
text-value_eq s (date d) h = cc
text-value_eq s (list vs) h = cc
text-value_eq s (tuple vs) h = cc
text-value_eq s (dict fs) h = cc

-- A result that is recovered is bound to the payloads by the committed event: a row whose log names
-- another plan, or whose event names another run, plan, policy, evaluation or decision, or is no event
-- of a success, is never returned as the result; and the fingerprint that was committed is that of
-- the result returned, recomputed over its steps.
pub recover_row-IsBound :
    (env : Env) (plan : RemediationPlan) (admission : ApplyAdmission) (row : CommittedRow)
    (result : ApplyResult)
    → recover_row env plan admission row ≡ ok result
    → IsBound env plan admission row result
unfolding recover_row
recover_row-IsBound env plan admission row result h =
    let (decoded, loads, h₁) = >>=-eq-ok (loaded env row.event_body) _ h in
    let (body, fields, h₂) = >>=-eq-ok (as_fields decoded) _ h₁ in
    let (logged, h₃) =
      refuse_if-eq-ok (not (value_eq row.plan_id (text plan.plan_id))) unbound _ h₂ in
    let (u, required, h₄) = >>=-eq-ok (require_bound body (bound plan admission)) _ h₃ in
    let (recorded, listed, h₅) = >>=-eq-ok (as_values (body_get body "apply_steps")) _ h₄ in
    let (counted, h₆) =
      refuse_if-eq-ok
        (not (nat_eq (length (count_values recorded)) (length (executable_items plan.items))))
        unbound _ h₅ in
    let run_id = str_of env row.run_id in
    let (steps, recovered, h₇) =
      >>=-eq-ok (recover_steps env run_id (executable_items plan.items) (count_values recorded)) _
        h₆ in
    let recomputed = result_fingerprint env plan (some admission) run_id false steps in
    let (same, h₈) =
      refuse_if-eq-ok (not (value_eq (text recomputed) (body_get body "apply_result_fingerprint")))
        unbound _ h₇ in
    let (result_id, identified, h₉) =
      >>=-eq-ok (nonempty_text (body_get body "apply_result_id")) _ h₈ in
    let (event_id, audited, made) = >>=-eq-ok (nonempty_text (body_get body "event_id")) _ h₉ in
    let all = require_bound-All body (bound plan admission) required in
    subst (IsBound env plan admission row) (ok-injective made) (record {
      body = body;
      decoded = loads ∙ ap ok (as_fields-eq-ok decoded fields);
      logged_plan = value_eq-text row.plan_id plan.plan_id (not-false _ logged);
      kind = value_eq-text _ _ all.0;
      quality_run_id = value_eq-text _ _ all.1.0;
      plan_id = value_eq-text _ _ all.1.1.0;
      plan_fingerprint = value_eq-text _ _ all.1.1.1.0;
      policy_fingerprint = value_eq-text _ _ all.1.1.1.1.0;
      evaluation_id = value_eq-text _ _ all.1.1.1.1.1.0;
      evaluation_fingerprint = value_eq-text _ _ all.1.1.1.1.1.1.0;
      decision_id = value_eq-text _ _ all.1.1.1.1.1.1.1.0;
      result_id = nonempty_text-eq-ok _ identified;
      event_id = (event_id, refl, nonempty_text-eq-ok _ audited);
      run = refl;
      fingerprint = text-value_eq recomputed _ (not-false _ same);
    })
