-- ===== src/Prelude/Tests.antt =====
-- The conditional, tests on native numbers, and the cases of a computed value.
use Prim.Native.Nat.{ℕ, compare, Ordering}
use Prim.Native.String.{String}
use mathlib.Core.Path.{◌≡◌, refl}
use mathlib.Core.Logic.{◌⊎◌, inl, inr}
use mathlib.Core.Bool.{Bool, true, false, not, ◌&&◌}
use mathlib.Core.Option.{Option, none, some}
use native.Mathlib.Omega.{arith}
use text.Mathlib.Text.{◌==◌}
use text.Mathlib.TextEquality.{eq_iff}

abbrev pub ltb : ℕ → ℕ → Bool
ltb a b = elim (compare a b) [ Ordering.lt ↦ true | _ ↦ false ]

abbrev pub leb : ℕ → ℕ → Bool
leb a b = elim (compare a b) [ Ordering.gt ↦ false | _ ↦ true ]

abbrev pub nat_eq : ℕ → ℕ → Bool
nat_eq a b = elim (compare a b) [ Ordering.eq ↦ true | _ ↦ false ]

infix 1 if◌then◌else◌
abbrev pub if◌then◌else◌ {ℓ} : {A : Type ℓ} → Bool → A → A → A
if true then x else y = x
if false then x else y = y

pub Bool-cases : (b : Bool) → (b ≡ true) ⊎ (b ≡ false)
Bool-cases true = inl refl
Bool-cases false = inr refl

pub Option-cases {ℓ} : {A : Type ℓ} (o : Option A) → (o ≡ none) ⊎ ((a : A) × (o ≡ some a))
Option-cases none = inl refl
Option-cases (some a) = inr (a, refl)

pub &&-eq-true : (a b : Bool) → (a && b) ≡ true → (a ≡ true) × (b ≡ true)
&&-eq-true true b h = (refl, h)
&&-eq-true false b h = cc

pub not-false : (b : Bool) → not b ≡ false → b ≡ true
not-false true h = refl
not-false false h = cc

pub not-true : (b : Bool) → not b ≡ true → b ≡ false
not-true true h = cc
not-true false h = refl

-- `a != b` of two texts.
infix 50 ◌!=◌
abbrev pub ◌!=◌ : String → String → Bool
a != b = not (a == b)

pub ==→≡ : (a b : String) → (a == b) ≡ true → a ≡ b
==→≡ a b h = (eq_iff a b).0 h

pub !=→≡ : (a b : String) → (a != b) ≡ false → a ≡ b
!=→≡ a b h = (eq_iff a b).0 (ground arith)

-- `a == b` of two values that may be `None`.
abbrev pub option_eq : Option String → Option String → Bool
option_eq none none = true
option_eq none (some b) = false
option_eq (some a) none = false
option_eq (some a) (some b) = a == b

pub option_eq→≡ : (a b : Option String) → option_eq a b ≡ true → a ≡ b
option_eq→≡ none none h = refl
option_eq→≡ none (some b) h = cc
option_eq→≡ (some a) none h = cc
option_eq→≡ (some a) (some b) h = cc (==→≡ a b h)

pub equal_texts : (a : String) → (a != a) ≡ false
equal_texts a = ground (arith, eq_iff a a)

pub ≡→!= : (a b : String) → a ≡ b → (a != b) ≡ false
≡→!= a b h = rw h (equal_texts b)
