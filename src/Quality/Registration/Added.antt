-- ===== src/Quality/Registration/Added.antt =====
-- quality/registry.py: the catalog after a registration.
use airflow_dq_agent.Prelude.{
  ◌≡◌, refl, false, has_key, All, All-insert, arith, inl, inr, Bool-cases, sym, subst, ◌⊎◌,
}
use airflow_dq_agent.Errors.{Error, Result, ok, err}
use airflow_dq_agent.Quality.Registry.{CheckSpec, Catalog}
use airflow_dq_agent.Quality.Registration.{bind_policies, register_check, with_check, keep_or_undo}
use airflow_dq_agent.Quality.Registration.Rollback.{Binds, bind_policies-Binds, register_check-err}

-- The outcome of a registration that succeeds.
pub record IsRegistered (spec : CheckSpec) (before after : Catalog) : Type 0 where
  pub fresh : has_key spec.check_id before.check_specs ≡ false
  pub added : after ≡ with_check spec before
  pub bound : All (Binds after spec) spec.policies

keep_or_undo-ok :
    (spec : CheckSpec) (added : Catalog) (bound : Result (Unit {0}))
    → (keep_or_undo spec added bound).0 ≡ ok tt
    → (bound ≡ ok tt) × ((keep_or_undo spec added bound).1 ≡ added)
keep_or_undo-ok spec added (ok _) h = (refl, refl)
keep_or_undo-ok spec added (err e) h = ground arith

pub register_check-IsRegistered :
    (spec : CheckSpec) (catalog : Catalog)
    → (register_check spec catalog).0 ≡ ok tt
    → IsRegistered spec catalog (register_check spec catalog).1
unfolding register_check
register_check-IsRegistered spec catalog h =
    elim (Bool-cases (has_key spec.check_id catalog.check_specs)) [
      | inl old ↦ absurd (ground arith)
      | inr new ↦
          let done = rw new at h in
          let (bound, kept) =
            keep_or_undo-ok spec (with_check spec catalog)
              (bind_policies (with_check spec catalog) spec spec.policies) done in
          rw new (record {
            fresh = new;
            added = kept;
            bound =
                subst (λ c. All (Binds c spec) spec.policies) (sym kept)
                  (bind_policies-Binds (with_check spec catalog) spec spec.policies bound);
          })
    ]

-- Every check stands under its own identifier.
abbrev pub IsKeyed : Catalog → Type 0
IsKeyed catalog = All (λ entry. entry.0 ≡ entry.1.check_id) catalog.check_specs

result-cases : (r : Result (Unit {0})) → (r ≡ ok tt) ⊎ ((e : Error) × (r ≡ err e))
result-cases (ok _) = inl refl
result-cases (err e) = inr (e, refl)

-- Whatever the outcome of a registration, the catalog stays keyed by identifier.
pub register_check-IsKeyed :
    (spec : CheckSpec) (catalog : Catalog)
    → IsKeyed catalog
    → IsKeyed (register_check spec catalog).1
register_check-IsKeyed spec catalog h = elim (result-cases (register_check spec catalog).0) [
  | inl done ↦ subst IsKeyed (sym (register_check-IsRegistered spec catalog done).added) (
      All-insert (λ entry. entry.0 ≡ entry.1.check_id) spec.check_id spec catalog.check_specs refl
        h)
  | inr (e, raised) ↦ subst IsKeyed (sym (register_check-err spec catalog e raised)) h
]
