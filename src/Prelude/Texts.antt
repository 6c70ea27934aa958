-- ===== src/Prelude/Texts.antt =====
-- Texts: order, sorting, and the last part of a dotted name.
use Prim.Native.Char.{code}
use Prim.Native.Nat.{ℕ, zero, suc, ◌-◌, ◌/◌, ◌%◌}
use Prim.Native.String.{String, compare, ◌++◌}
use mathlib.Core.Bool.{Bool, true, false, ◌&&◌, ◌||◌}
use mathlib.Core.List.{List, [], ◌∷◌}
use text.Mathlib.Text.{◌==◌, is_le, is_lt}
use airflow_dq_agent.Prelude.Tests.{if◌then◌else◌, nat_eq, ltb, leb}

-- Texts are ordered by code points, as Python orders `str`.
abbrev pub text_leb : String → String → Bool
text_leb a b = is_le (compare a b)

abbrev pub Pair : Type 0
Pair = String × String

-- The lexicographic order of pairs of texts.
abbrev pub pair_leb : Pair → Pair → Bool
pair_leb (a, b) (c, d) = is_lt (compare a c) || (a == c && text_leb b d)

abbrev pub pair_eq : Pair → Pair → Bool
pair_eq (a, b) (c, d) = a == c && b == d

module _ {ℓ} {A : Type ℓ} (below : A → A → Bool) where
  -- `sorted(xs)`; a stable sort is fixed by the order.
  abbrev pub insert_sorted : A → List A → List A
  insert_sorted x [] = x ∷ []
  insert_sorted x (y ∷ ys) = if below x y then x ∷ y ∷ ys else y ∷ insert_sorted x ys

  abbrev pub sorted : List A → List A
  sorted [] = []
  sorted (x ∷ xs) = insert_sorted x (sorted xs)

module _ {ℓ} {A : Type ℓ} (same : A → A → Bool) where
  abbrev pub list_eq : List A → List A → Bool
  list_eq [] [] = true
  list_eq [] (y ∷ ys) = false
  list_eq (x ∷ xs) [] = false
  list_eq (x ∷ xs) (y ∷ ys) = same x y && list_eq xs ys

-- The part behind the last dot, `text.split(".")[-1]`.
abbrev pub behind_dot : String → String → String
behind_dot best String.[] = best
behind_dot best (String.◌∷◌ c s) = behind_dot (if nat_eq (code c) b'.' then s else best) s

unfoldable pub last_segment : String → String
last_segment s = behind_dot s s

unfoldable pub digit : ℕ → String
digit d =
    if nat_eq d 0
    then "0"
    else if nat_eq d 1
    then "1"
    else if nat_eq d 2
    then "2"
    else if nat_eq d 3
    then "3"
    else if nat_eq d 4
    then "4"
    else if nat_eq d 5
    then "5"
    else if nat_eq d 6
    then "6"
    else if nat_eq d 7
    then "7"
    else if nat_eq d 8
    then "8"
    else "9"

unfoldable pub decimal_digits : ℕ → ℕ → String
decimal_digits zero n = ""
decimal_digits (suc fuel) n =
    let rest = decimal_digits fuel (n / 10) ++ digit (n % 10) in if ltb n 10 then digit n else rest

-- `str(n)`. A number has no more digits than its value and one.
unfoldable pub decimal : ℕ → String
unfolding decimal_digits digit
decimal n = decimal_digits (suc n) n

-- `c.isspace()`
abbrev is_space : ℕ → Bool
is_space c =
    (leb 9 c && leb c 13)
    || ((leb 28 c && leb c 32)
        || (nat_eq c 133
            || (nat_eq c 160
                || (nat_eq c 5760
                    || ((leb 8192 c && leb c 8202)
                        || (nat_eq c 8232
                            || (nat_eq c 8233
                                || (nat_eq c 8239 || (nat_eq c 8287 || nat_eq c 12288)))))))))

unfoldable pub any_space : String → Bool
any_space String.[] = false
any_space (String.◌∷◌ c s) = is_space (code c) || any_space s

unfoldable pub lstrip : String → String
lstrip String.[] = String.[]
lstrip (String.◌∷◌ c s) = let rest = lstrip s in if is_space (code c) then rest else String.◌∷◌ c s

unfoldable pub rstrip : String → String
rstrip String.[] = String.[]
rstrip (String.◌∷◌ c s) =
    let rest = rstrip s in if rest == "" && is_space (code c) then String.[] else String.◌∷◌ c rest

-- `text.strip()`
unfoldable pub strip : String → String
unfolding lstrip rstrip
strip s = rstrip (lstrip s)

-- `text.replace("Z", "+00:00")`
unfoldable pub replace_z : String → String
replace_z String.[] = String.[]
replace_z (String.◌∷◌ c s) =
    if nat_eq (code c) b'Z' then "+00:00" ++ replace_z s else String.◌∷◌ c (replace_z s)

-- The code points of a text, with ASCII letters in upper case.
unfoldable pub upper_codes : String → List ℕ
upper_codes String.[] = []
upper_codes (String.◌∷◌ c s) =
    let n = code c in (if leb b'a' n && leb n b'z' then n - 32 else n) ∷ upper_codes s

unfoldable pub starts_with : List ℕ → List ℕ → Bool
starts_with xs [] = true
starts_with [] (y ∷ ys) = false
starts_with (x ∷ xs) (y ∷ ys) = nat_eq x y && starts_with xs ys

unfoldable pub infix_of : List ℕ → List ℕ → Bool
infix_of ys [] = starts_with [] ys
infix_of ys (x ∷ xs) = starts_with (x ∷ xs) ys || infix_of ys xs

-- `token in text.upper()` for a token of capital ASCII letters; no other letter's upper case can
-- complete one of the tokens in use.
unfoldable pub in_upper : String → String → Bool
unfolding upper_codes starts_with infix_of
in_upper token s = infix_of (upper_codes token) (upper_codes s)
