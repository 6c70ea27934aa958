-- ===== src/Stateful.antt =====
-- Computations that act on a state and may raise: blocks of statements with effects.
use airflow_dq_agent.Prelude.{◌≡◌, refl}
use airflow_dq_agent.Errors.{Result, ok, err}

abbrev pub Action : Type 0 → Type 0 → Type 0
Action S A = S → Result A × S

-- The rest of a block, after what its first statement returned or raised.
abbrev pub proceed : {S A B : Type 0} → (A → Action S B) → Result A × S → Result B × S
proceed next (ok a, s) = next a s
proceed next (err e, s) = (err e, s)

infixl 5 ◌>>=◌
abbrev pub ◌>>=◌ : {S A B : Type 0} → Action S A → (A → Action S B) → Action S B
(first >>= next) s = proceed next (first s)

infixl 5 ◌>>◌
abbrev pub ◌>>◌ : {S B : Type 0} → Action S (Unit {0}) → Action S B → Action S B
(first >> rest) s = proceed (λ done. rest) (first s)

-- A computation that does not touch the state.
abbrev pub lift : {S A : Type 0} → Result A → Action S A
lift m s = (m, s)

abbrev pub return : {S A : Type 0} → A → Action S A
return a s = (ok a, s)

module _ {S A B : Type 0} where
  proceed-eq-ok :
      (next : A → Action S B) (r : Result A × S) {b : B} {s' : S}
      → proceed next r ≡ (ok b, s')
      → (a : A) × (s₁ : S) × (r ≡ (ok a, s₁)) × (next a s₁ ≡ (ok b, s'))
  proceed-eq-ok next (ok a, s) h = (a, s, refl, h)
  proceed-eq-ok next (err e, s) h = cc

  -- The parts of a block that returns.
  pub >>=-eq-ok :
      (first : Action S A) (next : A → Action S B) (s : S) {b : B} {s' : S}
      → (first >>= next) s ≡ (ok b, s')
      → (a : A) × (s₁ : S) × (first s ≡ (ok a, s₁)) × (next a s₁ ≡ (ok b, s'))
  >>=-eq-ok first next s h = proceed-eq-ok next (first s) h

pub lift-eq-ok :
    {S A : Type 0} (m : Result A) (s : S) {a : A} {s' : S}
    → lift m s ≡ (ok a, s')
    → (m ≡ ok a) × (s ≡ s')
lift-eq-ok m s h = (cc, cc)
