-- ===== src/Actions/Typed.antt =====
-- action_definitions.py: the type of a coerced fill value.
use airflow_dq_agent.Prelude.{ℕ, subst, String, ◌≡◌, Bool, Option, none, some}
use airflow_dq_agent.Errors.{ok, ok-injective, ◌>>=◌, >>=-eq-ok}
use airflow_dq_agent.Contracts.Value.{ℤ, Datetime, Value, int, float, text, bool, date, timestamp}
use airflow_dq_agent.Contracts.Tables.{DType, TableContract, ColumnContract, column}
use airflow_dq_agent.Environment.{Env}
use airflow_dq_agent.Actions.Derive.{or_value_error}
use airflow_dq_agent.Actions.Render.{coerce, coerce_fill_value, float_value, coerced_date}

-- The values that a column of a type may be filled with.
pub data HasDtype : DType → Value → Type 0 where
  integer : (z : ℤ) → HasDtype DType.int64 (int z)
  floating : (z : ℤ) (d : ℕ) → HasDtype DType.float64 (float z d)
  textual : (s : String) → HasDtype DType.utf8 (text s)
  boolean : (b : Bool) → HasDtype DType.bool (bool b)
  dated : (d : ℕ) → HasDtype DType.date (date d)
  timed : (t : Datetime) → HasDtype DType.datetime (timestamp t)

as_float :
    (o : Option (ℤ × ℕ)) (value : Value) → float_value o ≡ ok value → HasDtype DType.float64 value
as_float none value h = cc
as_float (some (z, d)) value h = subst (HasDtype DType.float64) (ok-injective h) (floating z d)

as_date : (o : Option ℕ) (value : Value) → coerced_date o ≡ ok value → HasDtype DType.date value
as_date none value h = cc
as_date (some d) value h = subst (HasDtype DType.date) (ok-injective h) (dated d)

as_datetime :
    (o : Option Datetime) (value : Value)
    → (or_value_error "requires an ISO datetime fill_value" o >>= λ t. ok (timestamp t)) ≡ ok value
    → HasDtype DType.datetime value
as_datetime none value h = cc
as_datetime (some t) value h = subst (HasDtype DType.datetime) (ok-injective h) (timed t)

coerce-HasDtype :
    (env : Env) (dtype : DType) (given value : Value)
    → coerce env dtype given ≡ ok value
    → HasDtype dtype value
unfolding coerce
coerce-HasDtype env DType.int64 (int z) value h =
    subst (HasDtype DType.int64) (ok-injective h) (integer z)
coerce-HasDtype env DType.int64 _ value h = cc
coerce-HasDtype env DType.float64 (int z) value h = as_float (env.float_of_int z) value h
coerce-HasDtype env DType.float64 (float z d) value h =
    subst (HasDtype DType.float64) (ok-injective h) (floating z d)
coerce-HasDtype env DType.float64 _ value h = cc
coerce-HasDtype env DType.utf8 (text s) value h =
    subst (HasDtype DType.utf8) (ok-injective h) (textual s)
coerce-HasDtype env DType.utf8 _ value h = cc
coerce-HasDtype env DType.bool (bool b) value h =
    subst (HasDtype DType.bool) (ok-injective h) (boolean b)
coerce-HasDtype env DType.bool _ value h = cc
coerce-HasDtype env DType.date (text s) value h = as_date (env.date_fromisoformat s) value h
coerce-HasDtype env DType.date (date d) value h =
    subst (HasDtype DType.date) (ok-injective h) (dated d)
coerce-HasDtype env DType.date _ value h = cc
coerce-HasDtype env DType.datetime (text s) value h = as_datetime (env.fromisoformat s) value h
coerce-HasDtype env DType.datetime (timestamp t) value h =
    subst (HasDtype DType.datetime) (ok-injective h) (timed t)
coerce-HasDtype env DType.datetime _ value h = cc

pub coerce_fill_value-HasDtype :
    (env : Env) (contract : TableContract) (name : String) (given value : Value)
    → coerce_fill_value env contract name given ≡ ok value
    → (c : ColumnContract) × (column contract name ≡ ok c) × HasDtype c.dtype value
unfolding coerce_fill_value
coerce_fill_value-HasDtype env contract name given value h =
    let (c, known, coerced) = >>=-eq-ok (column contract name) _ h in
    (c, known, coerce-HasDtype env c.dtype given value coerced)
