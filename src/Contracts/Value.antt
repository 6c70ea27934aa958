-- ===== src/Contracts/Value.antt =====
-- The values that artifacts carry: action parameters (`dict[str, Any]`) and the payloads that are
-- fingerprinted (contracts/fingerprints.py), as Python compares them.
use airflow_dq_agent.Prelude.{
  ℕ, suc, ◌+◌, ◌-◌, ◌*◌, leb, String, Bool, true, false, ◌&&◌, List, [], ◌∷◌, Option, none, some,
  ◌==◌, nat_eq, Dict, get, if◌then◌else◌, length,
}

-- `negsuc n` is -(n + 1).
pub data ℤ : Type 0 where
  pos : ℕ → ℤ
  negsuc : ℕ → ℤ

infixl 65 ◌+ℤ◌
abbrev pub ◌+ℤ◌ : ℤ → ℤ → ℤ
pos a +ℤ pos b = pos (a + b)
pos a +ℤ negsuc b = if leb a b then negsuc (b - a) else pos (a - suc b)
negsuc a +ℤ pos b = if leb b a then negsuc (a - b) else pos (b - suc a)
negsuc a +ℤ negsuc b = negsuc (suc (a + b))

-- A `datetime`: microseconds since the epoch, and whether it carries a time zone (UTC).
pub record Datetime : Type 0 where
  pub aware : Bool
  pub micros : ℕ

-- A float is given as the quotient of two integers that it was computed from.
mutual
  pub data Value : Type 0 where
    null : Value
    bool : Bool → Value
    int : ℤ → Value
    float : ℤ → ℕ → Value
    text : String → Value
    timestamp : Datetime → Value
    -- a `date`: days since the epoch
    date : ℕ → Value
    list : Values → Value
    tuple : Values → Value
    dict : Fields → Value

  pub data Values : Type 0 where
    nil : Values
    cons : Value → Values → Values

  pub data Fields : Type 0 where
    end : Fields
    field : String → Value → Fields → Fields

abbrev pub nat : ℕ → Value
nat n = int (pos n)

abbrev pub values : List Value → Values
values [] = nil
values (v ∷ vs) = cons v (values vs)

abbrev pub fields : Dict Value → Fields
fields [] = end
fields ((k, v) ∷ d) = field k v (fields d)

-- `[…]` and `{…}`
abbrev pub array : List Value → Value
array vs = list (values vs)

abbrev pub object : Dict Value → Value
object d = dict (fields d)

-- `None`, or the value
abbrev pub text? : Option String → Value
text? none = null
text? (some s) = text s

abbrev pub int? : Option ℤ → Value
int? none = null
int? (some z) = int z

abbrev pub nat? : Option ℕ → Value
nat? none = null
nat? (some n) = nat n

-- Booleans, integers and floats compare as numbers: `True == 1 == 1.0`.
abbrev as_number : Value → Option (ℤ × ℕ)
as_number (bool true) = some (pos 1, 1)
as_number (bool false) = some (pos 0, 1)
as_number (int z) = some (z, 1)
as_number (float z d) = some (z, d)
as_number _ = none

abbrev quotient_eq : ℤ × ℕ → ℤ × ℕ → Bool
quotient_eq (pos a, d) (pos b, e) = nat_eq (a * e) (b * d)
quotient_eq (negsuc a, d) (negsuc b, e) = nat_eq (suc a * e) (suc b * d)
quotient_eq (pos _, _) (negsuc _, _) = false
quotient_eq (negsuc _, _) (pos _, _) = false

abbrev number_eq : ℤ × ℕ → Value → Bool
number_eq x v = elim (as_number v) [ none ↦ false | some y ↦ quotient_eq x y ]

abbrev text_eq : String → Value → Bool
text_eq s (text t) = s == t
text_eq s _ = false

abbrev instant_eq : Datetime → Datetime → Bool
instant_eq a b =
    nat_eq a.micros b.micros && (if a.aware then b.aware else (if b.aware then false else true))

abbrev timestamp_eq : Datetime → Value → Bool
timestamp_eq t (timestamp u) = instant_eq t u
timestamp_eq t _ = false

abbrev date_eq : ℕ → Value → Bool
date_eq d (date e) = nat_eq d e
date_eq d _ = false

abbrev pub find_field : String → Fields → Option Value
find_field k end = none
find_field k (field j v fs) = if j == k then some v else find_field k fs

abbrev count_fields : Fields → ℕ
count_fields end = 0
count_fields (field k v fs) = suc (count_fields fs)

-- `a == b`. A list is not equal to a tuple, and the order of a dictionary's keys does not count.
unfoldable mutual
  pub value_eq : Value → Value → Bool
  value_eq null null = true
  value_eq null _ = false
  value_eq (bool true) w = number_eq (pos 1, 1) w
  value_eq (bool false) w = number_eq (pos 0, 1) w
  value_eq (int z) w = number_eq (z, 1) w
  value_eq (float z d) w = number_eq (z, d) w
  value_eq (text s) w = text_eq s w
  value_eq (timestamp t) w = timestamp_eq t w
  value_eq (date d) w = date_eq d w
  value_eq (list vs) (list ws) = values_eq vs ws
  value_eq (list vs) _ = false
  value_eq (tuple vs) (tuple ws) = values_eq vs ws
  value_eq (tuple vs) _ = false
  value_eq (dict fs) (dict gs) = nat_eq (count_fields fs) (count_fields gs) && fields_in fs gs
  value_eq (dict fs) _ = false

  pub values_eq : Values → Values → Bool
  values_eq nil nil = true
  values_eq nil (cons w ws) = false
  values_eq (cons v vs) nil = false
  values_eq (cons v vs) (cons w ws) = value_eq v w && values_eq vs ws

  pub fields_in : Fields → Fields → Bool
  fields_in end gs = true
  fields_in (field k v fs) gs =
      elim (find_field k gs) [ none ↦ false | some w ↦ value_eq v w ] && fields_in fs gs

-- Action parameters, a dictionary of values.
abbrev pub Params : Type 0
Params = Dict Value

abbrev pub params_in : Params → Params → Bool
params_in [] e = true
params_in ((k, v) ∷ d) e = elim (get k e) [ none ↦ false | some w ↦ value_eq v w ] && params_in d e

-- `d == e` of two dictionaries
unfoldable pub params_eq : Params → Params → Bool
params_eq d e = nat_eq (length d) (length e) && params_in d e
