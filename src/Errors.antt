-- ===== src/Errors.antt =====
-- The exceptions that the package raises, and computations that may raise. A message is a
-- constructor of `Reason` or `Problem` that stands for its text; what the text quotes is left out.
use airflow_dq_agent.Prelude.{String, ◌≡◌, refl, Bool, true, false, arith}

-- The `refusing` argument of the checks: what is being refused.
pub data Refusing : Type 0 where
  plan_compilation evaluation admission dry_run apply human_decision xcom : Refusing

-- One constructor for each `PermissionError` text of planning/integrity.py, planning/admission.py,
-- hitl.py, agent/sanitize.py and apply/executor.py.
pub data Reason : Type 0 where
  report_unfingerprinted report_mismatch plan_mismatch : Reason
  evaluation_unfingerprinted evaluation_mismatch evaluation_foreign : Reason
  decision_mismatch admission_mismatch admission_foreign report_foreign : Reason
  duplicate_action_and_evidence policy_refused params_mismatch uncovered_failure : Reason
  plan_blocked evaluation_failed not_an_approval : Reason
  no_audit_event no_lookup event_not_found event_not_approval decision_not_in_lineage : Reason
  other_quality_run other_plan other_actor other_evaluation review_not_bound : Reason
  no_predecessor review_not_found review_other_evaluation : Reason
  decided_after_admission admission_expired : Reason
  duplicate_items shared_evidence conflicting_mutations : Reason
  malformed_options responder_not_allowed note_required : Reason
  unknown_outcome timeout_identity actor_not_allowed approval_note_required : Reason
  unbounded_proposal : Reason
  admission_required policy_drifted other_warehouse targets_changed admission_consumed : Reason
  consumed_unrecovered concurrent_unrecovered recovery_unbound : Reason

pub data Error : Type 0 where
  key_error : String → Error
  value_error : String → Error
  -- `PolicyRefusal`, a `ValueError` with the reason that a blocked plan item shows
  policy_refusal : (message blocked_reason : String) → Error
  permission_error : Refusing → Reason → Error
  type_error : Error
  runtime_error : String → Error
  -- `SQLAlchemyError`, with the SQLSTATE of its cause
  database_error : String → Error
  -- `sqlalchemy.exc.IntegrityError`, one of them
  integrity_error : String → Error
  overflow_error : Error

-- `except (KeyError, ValueError)`
abbrev pub is_key_or_value_error : Error → Bool
is_key_or_value_error (key_error _) = true
is_key_or_value_error (value_error _) = true
is_key_or_value_error (policy_refusal _ _) = true
is_key_or_value_error _ = false

-- What a computation returns or raises.
pub data Result {ℓ} (A : Type ℓ) : Type ℓ where
  err : (raised : Error) → Result A
  ok : (returned : A) → Result A

-- A statement after another: an exception ends the block.
module _ {ℓ κ} {A : Type ℓ} {B : Type κ} where
  infixl 5 ◌>>=◌
  abbrev pub ◌>>=◌ : Result A → (A → Result B) → Result B
  err raised >>= next = err raised
  ok returned >>= next = next returned

  -- The parts of a block that returns.
  pub >>=-eq-ok :
      (first : Result A) (next : A → Result B) {returned : B}
      → (first >>= next) ≡ ok returned
      → (a : A) × (first ≡ ok a) × (next a ≡ ok returned)
  >>=-eq-ok (err raised) next h = cc
  >>=-eq-ok (ok a) next h = (a, refl, h)

infixl 5 ◌>>◌
abbrev pub ◌>>◌ {κ} : {B : Type κ} → Result (Unit {0}) → Result B → Result B
first >> rest = first >>= λ done. rest

-- `if test: raise error`
abbrev pub refuse_if : Bool → Error → Result (Unit {0})
refuse_if true e = err e
refuse_if false e = ok tt

-- `try: m except …: handler`
abbrev pub try_except {ℓ} : {A : Type ℓ} → Result A → (Error → Result A) → Result A
try_except (ok a) handler = ok a
try_except (err e) handler = handler e

pub ok-injective {ℓ} : {A : Type ℓ} {a b : A} → ok a ≡ ok b → a ≡ b
ok-injective h = cc

-- What a chain of refusals that ends well has passed.
pub refuse_if-eq-ok {ℓ} :
    {B : Type ℓ} (t : Bool) (e : Error) (k : Result B) {b : B}
    → (refuse_if t e >> k) ≡ ok b
    → (t ≡ false) × (k ≡ ok b)
refuse_if-eq-ok true e k h = cc
refuse_if-eq-ok false e k h = (refl, h)

-- A computation that raises nothing but what `except (KeyError, ValueError)` catches.
pub record Catchable {ℓ} {A : Type ℓ} (r : Result A) : Type ℓ where
  pub caught : (e : Error) → r ≡ err e → is_key_or_value_error e ≡ true

pub Catchable-ok {ℓ} : {A : Type ℓ} (a : A) → Catchable (ok a)
Catchable-ok a = record { caught = λ e h. cc }

pub Catchable-key_error {ℓ} :
    {A : Type ℓ} (name : String) → Catchable {A = A} (err (key_error name))
Catchable-key_error name = record { caught = λ e h. ground arith }

pub Catchable-value_error {ℓ} :
    {A : Type ℓ} (message : String) → Catchable {A = A} (err (value_error message))
Catchable-value_error message = record { caught = λ e h. ground arith }

pub Catchable-refuse_if :
    (test : Bool) (message : String) → Catchable (refuse_if test (value_error message))
Catchable-refuse_if true message = Catchable-value_error message
Catchable-refuse_if false message = Catchable-ok tt

pub Catchable-bind {ℓ κ} :
    {A : Type ℓ} {B : Type κ} (m : Result A) (f : A → Result B)
    → Catchable m
    → ((a : A) → Catchable (f a))
    → Catchable (m >>= f)
Catchable-bind (ok a) f h k = k a
Catchable-bind (err e) f h k = record { caught = λ d p. h.caught d (cc) }

pub ruleset catchable_rules =
    (Catchable-ok, Catchable-key_error, Catchable-value_error, Catchable-refuse_if, Catchable-bind)
