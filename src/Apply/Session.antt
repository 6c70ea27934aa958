-- ===== src/Apply/Session.antt =====
-- apply/executor.py: a statement of the transaction acts on a session, the store that the transaction
-- sees, the number of clock readings taken, and the steps taken so far, and may raise. The readings
-- and the steps are Python objects and outlive a transaction that is rolled back.
pub mod Inversion
unfoldable pub use airflow_dq_agent.Stateful.{◌>>=◌, ◌>>◌, lift, return}
use airflow_dq_agent.Stateful.{Action}
use airflow_dq_agent.Prelude.{ℕ, suc, ◌≡◌, refl, List, ◌++◌, [], ◌∷◌}
use airflow_dq_agent.Errors.{Error, Result, ok, err}
use airflow_dq_agent.Apply.Results.{AppliedStep}

pub record Session (S : Type 0) : Type 0 where
  pub store : S
  pub ticks : ℕ
  pub steps : List AppliedStep

abbrev pub Statement : Type 0 → Type 0 → Type 0
Statement S A = Action (Session S) A

-- A statement that only acts on the store. What it left behind when it raised is rolled back.
abbrev pub stored : {S : Type 0} → Session S → Result S → Result (Unit {0}) × Session S
stored session (ok s) = (ok tt, record session { store = s })
stored session (err e) = (err e, session)

abbrev pub on_store : {S : Type 0} → (S → Result S) → Statement S (Unit {0})
on_store f session = stored session (f session.store)

abbrev pub on_query : {S A : Type 0} → (S → Result A) → Statement S A
on_query f session = (f session.store, session)

-- `result.steps.append(step)`
abbrev pub append_step : {S : Type 0} → AppliedStep → Statement S (Unit {0})
append_step step session = (ok tt, record session { steps = session.steps ++ (step ∷ []) })
