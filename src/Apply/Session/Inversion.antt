-- ===== src/Apply/Session/Inversion.antt =====
-- apply/executor.py: the parts of a block of statements that returns.
pub use airflow_dq_agent.Stateful.{>>=-eq-ok, lift-eq-ok}
use airflow_dq_agent.Prelude.{◌≡◌, refl}
use airflow_dq_agent.Errors.{Result, ok, err}
use airflow_dq_agent.Apply.Session.{stored, Session, on_store, on_query}

-- A session with another store.
abbrev pub with_store : {S : Type 0} → Session S → S → Session S
with_store session s = record session { store = s }

pub on_query-eq-ok :
    {S A : Type 0} (f : S → Result A) (s : Session S) {a : A} {s' : Session S}
    → on_query f s ≡ (ok a, s')
    → (f s.store ≡ ok a) × (s ≡ s')
on_query-eq-ok f s h = (cc, cc)

stored-eq-ok :
    {S : Type 0} (s : Session S) (r : Result S) {u : Unit {0}} {s' : Session S}
    → stored s r ≡ (ok u, s')
    → (t : S) × (r ≡ ok t) × (with_store s t ≡ s')
stored-eq-ok s (ok t) h = (t, refl, cc)
stored-eq-ok s (err e) h = cc

pub on_store-eq-ok :
    {S : Type 0} (f : S → Result S) (s : Session S) {u : Unit {0}} {s' : Session S}
    → on_store f s ≡ (ok u, s')
    → (t : S) × (f s.store ≡ ok t) × (with_store s t ≡ s')
on_store-eq-ok f s h = stored-eq-ok s (f s.store) h
