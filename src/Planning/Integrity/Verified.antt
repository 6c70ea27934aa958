-- ===== src/Planning/Integrity/Verified.antt =====
-- planning/integrity.py: what the integrity checks establish.
use airflow_dq_agent.Prelude.{
  String, ◌≡◌, refl, sym, ap, ◌∙◌, Bool, true, false, not, ◌||◌, Option, none, some, ◌==◌, ◌!=◌,
  !=→≡, eq_iff, option_eq, option_eq→≡, arith,
}
use airflow_dq_agent.Errors.{Error, ok, Refusing, refuse_if, refuse_if-eq-ok, >>=-eq-ok}
use airflow_dq_agent.Contracts.Value.{Value}
use airflow_dq_agent.Contracts.Plan.{RemediationPlan}
use airflow_dq_agent.Contracts.Evaluation.{EvalReport}
use airflow_dq_agent.Contracts.Decision.{ApplyAdmission}
use airflow_dq_agent.Environment.{Env}
use airflow_dq_agent.Planning.Payload.{admission_payload, admission_payload_fingerprint}
use airflow_dq_agent.Planning.Integrity.{
  require_present, plan_fingerprint, verify_plan_integrity, evaluation_fingerprint,
  verify_evaluation_integrity, verify_admission_integrity,
}

pub refuse_if-ok : (t : Bool) (e : Error) → refuse_if t e ≡ ok tt → t ≡ false
refuse_if-ok true e h = cc
refuse_if-ok false e h = refl

pub require_present-ok :
    (o : Option String) (e : Error) {s : String}
    → require_present o e ≡ ok s
    → (o ≡ some s) × ((s == "") ≡ false)
require_present-ok none e h = cc
require_present-ok (some t) e h = ground arith

pub verify_plan_integrity-ok :
    (env : Env) (refusing : Refusing) (plan : RemediationPlan)
    → verify_plan_integrity env refusing plan ≡ ok tt
    → plan_fingerprint env plan ≡ plan.fingerprint
unfolding verify_plan_integrity
verify_plan_integrity-ok env refusing plan h =
    !=→≡ (plan_fingerprint env plan) plan.fingerprint (refuse_if-ok _ _ h)

pub verify_plan_integrity-of :
    (env : Env) (refusing : Refusing) (plan : RemediationPlan)
    → plan_fingerprint env plan ≡ plan.fingerprint
    → verify_plan_integrity env refusing plan ≡ ok tt
unfolding verify_plan_integrity
verify_plan_integrity-of env refusing plan h =
    ground (arith, eq_iff (plan_fingerprint env plan) plan.fingerprint)

-- What a verified evaluation satisfies.
pub record IsOwnEvaluation (env : Env) (plan : RemediationPlan) (evaluation : EvalReport)
    (fingerprint : String) : Type 0 where
  pub carried : evaluation.fingerprint ≡ some fingerprint
  pub recomputed : evaluation_fingerprint env evaluation ≡ fingerprint
  pub same_plan : evaluation.plan_id ≡ some plan.plan_id
  pub same_fingerprint : evaluation.plan_fingerprint ≡ some plan.fingerprint

pub not_or-false : (a b : Bool) → (not a || not b) ≡ false → (a ≡ true) × (b ≡ true)
not_or-false true true h = (refl, refl)
not_or-false true false h = cc
not_or-false false b h = cc

pub verify_evaluation_integrity-ok :
    (env : Env) (refusing : Refusing) (plan : RemediationPlan) (evaluation : EvalReport)
    (fingerprint : String)
    → verify_evaluation_integrity env refusing plan evaluation ≡ ok fingerprint
    → IsOwnEvaluation env plan evaluation fingerprint
unfolding verify_evaluation_integrity
verify_evaluation_integrity-ok env refusing plan evaluation fingerprint h =
    let (own, carried, h₁) = >>=-eq-ok (require_present evaluation.fingerprint _) _ h in
    let (same, h₂) = refuse_if-eq-ok (evaluation_fingerprint env evaluation != own) _ _ h₁ in
    let test : Bool =
      not (option_eq evaluation.plan_id (some plan.plan_id))
      || not (option_eq evaluation.plan_fingerprint (some plan.fingerprint)) in
    let (foreign, h₃) = refuse_if-eq-ok test _ (ok own) h₂ in
    let eq : own ≡ fingerprint = cc in
    let both =
      not_or-false (option_eq evaluation.plan_id (some plan.plan_id))
        (option_eq evaluation.plan_fingerprint (some plan.fingerprint)) foreign in
    record {
      carried = (require_present-ok evaluation.fingerprint _ carried).0 ∙ ap some eq;
      recomputed = !=→≡ (evaluation_fingerprint env evaluation) own same ∙ eq;
      same_plan = option_eq→≡ _ _ both.0;
      same_fingerprint = option_eq→≡ _ _ both.1;
    }

-- Two values of one fingerprint are the same value: what SHA-256 is relied on for, at a pair.
abbrev pub NoCollision : Env → Value → Value → Type 0
NoCollision env v w = env.canonical_fingerprint v ≡ env.canonical_fingerprint w → v ≡ w

verify_admission_integrity-ok :
    (env : Env) (refusing : Refusing) (plan : RemediationPlan) (evaluation : EvalReport)
    (admission : ApplyAdmission)
    → verify_admission_integrity env refusing plan evaluation admission ≡ ok tt
    → admission_payload_fingerprint env admission ≡ admission.fingerprint
unfolding verify_admission_integrity
verify_admission_integrity-ok env refusing plan evaluation admission h =
    !=→≡ (admission_payload_fingerprint env admission) admission.fingerprint
      (refuse_if-eq-ok _ _ _ h).0

same_payload :
    (a b : ApplyAdmission)
    → admission_payload a ≡ admission_payload b
    → a.fingerprint ≡ b.fingerprint
    → a ≡ b
unfolding admission_payload
same_payload a b h k = ground arith

-- Two admissions of one fingerprint that both pass the check are the same admission, unless their
-- payloads collide: no field of an admission, its expiry included, can be altered under it.
pub verified_admissions_agree :
    (env : Env) (refusing : Refusing) (plan : RemediationPlan) (evaluation : EvalReport)
    (admission other : ApplyAdmission)
    → NoCollision env (admission_payload admission) (admission_payload other)
    → verify_admission_integrity env refusing plan evaluation admission ≡ ok tt
    → verify_admission_integrity env refusing plan evaluation other ≡ ok tt
    → admission.fingerprint ≡ other.fingerprint
    → admission ≡ other
unfolding admission_payload_fingerprint
verified_admissions_agree env refusing plan evaluation admission other distinct p q same =
    same_payload admission other
      (distinct (
        verify_admission_integrity-ok env refusing plan evaluation admission p
        ∙ (same ∙ sym (verify_admission_integrity-ok env refusing plan evaluation other q))))
      same
