-- ===== src/Quality/Registration/Rollback.antt =====
-- quality/registry.py: the policies that bind, and the catalog after a registration that raises.
use airflow_dq_agent.Prelude.{
  ◌≡◌, refl, false, List, [], ◌∷◌, Dict, has_key, All, delete-insert_new, ap, ◌∙◌, inl, inr,
  Bool-cases,
}
use airflow_dq_agent.Errors.{
  Error, Result, ok, err, Catchable, Catchable-ok, Catchable-bind, ◌>>=◌, >>=-eq-ok,
}
use airflow_dq_agent.Contracts.Value.{Params}
use airflow_dq_agent.Quality.Registry.{CheckPolicy, CheckSpec, Catalog}
use airflow_dq_agent.Quality.Registration.{
  bind_policies, register_check, with_check, without_check, keep_or_undo,
}
use airflow_dq_agent.Actions.{GovernedAction, derive_params}
use airflow_dq_agent.Actions.Registered.{get_governed_action}
use airflow_dq_agent.Actions.Derived.{IsDerived, derive_params-IsDerived}
use airflow_dq_agent.Actions.Catchable.{get_governed_action-Catchable, derive_params-Catchable}

Catchable-bind_ok {ℓ κ} :
    {A : Type ℓ} {B : Type κ} (m : Result A) (f : A → Result B)
    → Catchable m
    → ((a : A) → m ≡ ok a → Catchable (f a))
    → Catchable (m >>= f)
Catchable-bind_ok (ok a) f h k = k a refl
Catchable-bind_ok (err e) f h k = record { caught = λ d p. h.caught d (cc) }

bind_policies-Catchable :
    (catalog : Catalog) (spec : CheckSpec) (policies : List CheckPolicy)
    → Catchable (bind_policies catalog spec policies)
unfolding bind_policies
bind_policies-Catchable catalog spec [] = Catchable-ok tt
bind_policies-Catchable catalog spec (policy ∷ policies) =
    Catchable-bind_ok _ _ (get_governed_action-Catchable policy.action_id) λ action found.
      Catchable-bind _ _ (derive_params-Catchable catalog policy.action_id action spec found)
        λ _. bind_policies-Catchable catalog spec policies

-- A policy of the check names a governed action, and its parameters derive and validate.
pub record Binds (catalog : Catalog) (spec : CheckSpec) (policy : CheckPolicy) : Type 0 where
  pub action : GovernedAction
  pub governed : get_governed_action policy.action_id ≡ ok action
  pub params : Params
  pub derived : IsDerived catalog action spec params

pub bind_policies-Binds :
    (catalog : Catalog) (spec : CheckSpec) (policies : List CheckPolicy)
    → bind_policies catalog spec policies ≡ ok tt
    → All (Binds catalog spec) policies
unfolding bind_policies
bind_policies-Binds catalog spec [] h = tt
bind_policies-Binds catalog spec (policy ∷ policies) h =
    let (action, governed, h₁) = >>=-eq-ok (get_governed_action policy.action_id) _ h in
    let (params, derived, h₂) = >>=-eq-ok (derive_params catalog action spec) _ h₁ in
    (
      record {
        action = action;
        governed = governed;
        params = params;
        derived = derive_params-IsDerived catalog action spec params derived;
      },
      bind_policies-Binds catalog spec policies h₂,
    )

undo :
    (spec : CheckSpec) (catalog : Catalog)
    → has_key spec.check_id catalog.check_specs ≡ false
    → without_check spec (with_check spec catalog) ≡ catalog
undo spec catalog new =
    ap (λ (specs : Dict CheckSpec). record catalog { check_specs = specs })
      (delete-insert_new spec.check_id spec catalog.check_specs new)

keep_or_undo-err :
    (spec : CheckSpec) (added : Catalog) (bound : Result (Unit {0})) (e : Error)
    → Catchable bound
    → (keep_or_undo spec added bound).0 ≡ err e
    → (keep_or_undo spec added bound).1 ≡ without_check spec added
keep_or_undo-err spec added (ok _) e c h = cc
keep_or_undo-err spec added (err d) e c h = rw (c.caught d refl)

-- A registration that raises leaves both catalogs as they were.
pub register_check-err :
    (spec : CheckSpec) (catalog : Catalog) (e : Error)
    → (register_check spec catalog).0 ≡ err e
    → (register_check spec catalog).1 ≡ catalog
unfolding register_check
register_check-err spec catalog e h =
    elim (Bool-cases (has_key spec.check_id catalog.check_specs)) [
      | inl old ↦ rw old
      | inr new ↦
          let raised = rw new at h in
          rw new (
            keep_or_undo-err spec _ _ e (bind_policies-Catchable _ spec spec.policies) raised
            ∙ undo spec catalog new)
    ]
