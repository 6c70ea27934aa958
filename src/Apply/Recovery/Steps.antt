-- ===== src/Apply/Recovery/Steps.antt =====
-- apply/executor.py: the steps of a committed application, read back from the evidence of its event.
use airflow_dq_agent.Prelude.{
  suc, String, ◌≡◌, refl, ap, ◌∙◌, Bool, true, false, not, ◌&&◌, List, [], ◌∷◌, map, Option, none,
  some, length, All, eq_iff,
}
use airflow_dq_agent.Errors.{Result, ok, refuse_if, ◌>>=◌, ◌>>◌}
use airflow_dq_agent.Contracts.Value.{ℤ, Value, text, int?, dict, Fields, value_eq}
use airflow_dq_agent.Contracts.Plan.{ExecutablePlanItem}
use airflow_dq_agent.Contracts.Decision.{AppliedStepEvidence}
use airflow_dq_agent.Contracts.Tables.{TableContract, get_table_contract}
use airflow_dq_agent.Actions.{render_action}
use airflow_dq_agent.Actions.Render.{RenderedStep}
use airflow_dq_agent.Actions.Controlled.{render_action-IsControlled}
use airflow_dq_agent.Actions.Registered.{get_governed_action, get_governed_action-action_id}
use airflow_dq_agent.Environment.{Env}
use airflow_dq_agent.Apply.Results.{AppliedStep, step_evidence}
use airflow_dq_agent.Apply.Recovery.{unbound, body_get, as_fields, int_or_none, recover_steps}
use airflow_dq_agent.Apply.Progress.{IsStepOf, AreStepsOf}

-- What JSON keeps of a step's evidence, whatever the order of its keys.
pub record IsEvidenceOf (entry : Value) (evidence : AppliedStepEvidence) : Type 0 where
  pub body : Fields
  pub object : entry ≡ dict body
  pub action_id : body_get body "action_id" ≡ text evidence.action_id
  pub table : body_get body "table" ≡ text evidence.table
  pub estimated_rows : body_get body "estimated_rows" ≡ int? evidence.estimated_rows
  pub rowcount : body_get body "rowcount" ≡ int? evidence.rowcount

abbrev pub AreEvidenceOf : List Value → List AppliedStepEvidence → Type 0
AreEvidenceOf [] [] = Unit
AreEvidenceOf [] (e ∷ es) = ⊥
AreEvidenceOf (v ∷ vs) [] = ⊥
AreEvidenceOf (v ∷ vs) (e ∷ es) = IsEvidenceOf v e × AreEvidenceOf vs es

pub accepted {ℓ} :
    {A : Type ℓ} (t : Bool) (k : Result A) → t ≡ true → (refuse_if (not t) unbound >> k) ≡ k
accepted true k h = refl
accepted false k h = cc

both : {a b : Bool} → a ≡ true → b ≡ true → (a && b) ≡ true
both {a = true} {b = true} h k = refl
both {a = true} {b = false} h k = cc
both {a = false} {b = b} h k = cc

pub text_eq : (v : Value) (s : String) → v ≡ text s → value_eq v (text s) ≡ true
unfolding value_eq
text_eq v s h = ap (λ w. value_eq w (text s)) h ∙ (eq_iff s s).1 refl

int_or_none-int? : (n : Option _) → int_or_none (int? n) ≡ n
int_or_none-int? none = refl
int_or_none-int? (some z) = refl

pub AreEvidenceOf-length :
    (entries : List Value) (evidence : List AppliedStepEvidence)
    → AreEvidenceOf entries evidence
    → length entries ≡ length evidence
AreEvidenceOf-length [] [] h = refl
AreEvidenceOf-length [] (e ∷ es) h = absurd h
AreEvidenceOf-length (v ∷ vs) [] h = absurd h
AreEvidenceOf-length (v ∷ vs) (e ∷ es) h = ap suc (AreEvidenceOf-length vs es h.1)

pub AreStepsOf-length :
    (env : Env) (run_id : String) (items : List ExecutablePlanItem) (steps : List AppliedStep)
    → AreStepsOf env run_id items steps
    → length (map step_evidence steps) ≡ length items
AreStepsOf-length env run_id [] [] h = refl
AreStepsOf-length env run_id [] (s ∷ ss) h = absurd h
AreStepsOf-length env run_id (i ∷ is) [] h = absurd h
AreStepsOf-length env run_id (i ∷ is) (s ∷ ss) h = ap suc (AreStepsOf-length env run_id is ss h.1)

-- The item names its table as the table's contract does, without a schema.
abbrev pub IsNamedByContract : Env → ExecutablePlanItem → Type 0
IsNamedByContract env item =
    (contract : TableContract)
    → get_table_contract env.catalog.table_contracts item.table ≡ ok contract
    → contract.table ≡ item.table

pub then {ℓ κ} :
    {A : Type ℓ} {B : Type κ} (m : Result A) (f : A → Result B) {a : A} {r : Result B}
    → m ≡ ok a
    → f a ≡ r
    → (m >>= f) ≡ r
then m f h k = ap (λ n. n >>= f) h ∙ k

module _ (env : Env) (run_id : String) where
  -- The step bears the item's action and table.
  own_names :
      (item : ExecutablePlanItem) (step : AppliedStep)
      → IsNamedByContract env item
      → IsStepOf env run_id item step
      → (step.rendered.action_id ≡ item.action_id) × (step.rendered.table ≡ item.table)
  own_names item step named own =
      let valid =
        render_action-IsControlled env item.action_id own.action item.table item.params run_id
          step.rendered own.governed own.rendered in
      (
        valid.rendered.own_action
            ∙ get_governed_action-action_id item.action_id own.action own.governed,
        valid.rendered.own_table ∙ named valid.contract valid.contracted,
      )

  abbrev counted : RenderedStep → Option ℤ → Option ℤ → AppliedStep
  counted rendered estimated rowcount = record {
    rendered = rendered;
    estimated_rows = estimated;
    rowcount = rowcount;
  }

  same_step :
      (step : AppliedStep) (estimated rowcount : Value)
      → estimated ≡ int? step.estimated_rows
      → rowcount ≡ int? step.rowcount
      → counted step.rendered (int_or_none estimated) (int_or_none rowcount) ≡ step
  same_step step estimated rowcount h k =
      ap (λ v. counted step.rendered (int_or_none v) (int_or_none rowcount)) h
      ∙ (ap (λ v. counted step.rendered (int_or_none (int? step.estimated_rows)) (int_or_none v)) k
          ∙ (ap (λ n. counted step.rendered n (int_or_none (int? step.rowcount)))
                (int_or_none-int? step.estimated_rows)
              ∙ ap (λ n. counted step.rendered step.estimated_rows n)
                  (int_or_none-int? step.rowcount)))

  -- The round that recovers a step.
  recover_steps-cons :
      (item : ExecutablePlanItem) (items : List ExecutablePlanItem) (entry : Value)
      (entries : List Value) (step : AppliedStep) (steps : List AppliedStep)
      → IsNamedByContract env item
      → IsStepOf env run_id item step
      → IsEvidenceOf entry (step_evidence step)
      → recover_steps env run_id items entries ≡ ok steps
      → recover_steps env run_id (item ∷ items) (entry ∷ entries) ≡ ok (step ∷ steps)
  unfolding recover_steps
  recover_steps-cons item items entry entries step steps named own evidence rest =
      let names = own_names item step named own in
      let body = evidence.body in
      let action_eq = text_eq _ _ (evidence.action_id ∙ ap text names.0) in
      let table_eq = text_eq _ _ (evidence.table ∙ ap text names.1) in
      then (as_fields entry) _ (ap as_fields evidence.object) (
        accepted _ _ (both action_eq table_eq)
        ∙ then (get_governed_action item.action_id) _ own.governed (
            then (render_action env own.action item.table item.params run_id) _ own.rendered (
              then (recover_steps env run_id items entries) _ rest (
                ap (λ s. ok (s ∷ steps))
                  (same_step step _ _ evidence.estimated_rows evidence.rowcount)))))

  pub recover_steps-recorded :
      (items : List ExecutablePlanItem) (entries : List Value) (steps : List AppliedStep)
      → All (IsNamedByContract env) items
      → AreStepsOf env run_id items steps
      → AreEvidenceOf entries (map step_evidence steps)
      → recover_steps env run_id items entries ≡ ok steps
  unfolding recover_steps
  recover_steps-recorded [] [] [] named own evidence = refl
  recover_steps-recorded [] (v ∷ vs) [] named own evidence = absurd evidence
  recover_steps-recorded [] vs (s ∷ ss) named own evidence = absurd own
  recover_steps-recorded (i ∷ is) vs [] named own evidence = absurd own
  recover_steps-recorded (i ∷ is) [] (s ∷ ss) named own evidence = absurd evidence
  recover_steps-recorded (i ∷ is) (v ∷ vs) (s ∷ ss) named own evidence =
      recover_steps-cons i is v vs s ss named.0 own.0 evidence.0
        (recover_steps-recorded is vs ss named.1 own.1 evidence.1)
