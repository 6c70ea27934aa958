-- ===== src/CheckPolicy/Justified.antt =====
-- check_policy.py: what a justified action rests on.
use airflow_dq_agent.Prelude.{
  String, ◌≡◌, refl, sym, subst, ◌∙◌, Bool, true, false, not, List, [], ◌∷◌, Option, none, some,
  Dict, get, any, All, !=→≡, is_empty, arith,
}
use airflow_dq_agent.Errors.{Error, Result, ok, err, refuse_if-eq-ok, >>=-eq-ok}
use airflow_dq_agent.Contracts.Value.{Params, params_eq}
use airflow_dq_agent.Contracts.Report.{CheckResult}
use airflow_dq_agent.Contracts.Plan.{QualityEvidence}
use airflow_dq_agent.Quality.Registry.{CheckSpec, get_check_spec, Catalog}
use airflow_dq_agent.Actions.{GovernedAction, derive_params}
use airflow_dq_agent.Actions.Registered.{get_governed_action}
use airflow_dq_agent.Actions.Derived.{IsDerived, derive_params-IsDerived}
use airflow_dq_agent.CheckPolicy.{
  CheckPolicyJustification, justify_action, cited_specs, cites_failure, undeclared_by, consistent,
  derive_all, bindable_or_refuse, justified_or_refuse, refuse_with,
}

-- One piece of evidence names a declared check that failed in the report, with its contract.
pub record IsCited (catalog : Catalog) (failures : Dict CheckResult) (item : QualityEvidence)
    (spec : CheckSpec) : Type 0 where
  pub declared : get_check_spec catalog.check_specs item.check_id ≡ ok spec
  pub failed : CheckResult
  pub reported : get item.check_id failures ≡ some failed
  pub same_contract : failed.contract_id ≡ item.contract_id

-- The evidence and the specs that it cites, one for one.
abbrev pub AllCited : Catalog → Dict CheckResult → List QualityEvidence → List CheckSpec → Type 0
AllCited catalog failures [] [] = Unit
AllCited catalog failures [] (spec ∷ specs) = ⊥
AllCited catalog failures (item ∷ evidence) [] = ⊥
AllCited catalog failures (item ∷ evidence) (spec ∷ specs) =
    IsCited catalog failures item spec × AllCited catalog failures evidence specs

-- The action's parameters for a cited check are those of the plan.
abbrev pub DerivesEqual : Catalog → GovernedAction → Params → CheckSpec → Type 0
DerivesEqual catalog governed params spec =
    (own : Params) × IsDerived catalog governed spec own × (params_eq own params ≡ true)

abbrev pub DeriveSame : Catalog → GovernedAction → Params → List CheckSpec → Type 0
DeriveSame catalog governed params [] = ⊥
DeriveSame catalog governed params (spec ∷ specs) =
    IsDerived catalog governed spec params × All (DerivesEqual catalog governed params) specs

-- A justified request, declaratively.
pub record IsJustified (catalog : Catalog) (name : String) (evidence : List QualityEvidence)
    (failures : Dict CheckResult) (j : CheckPolicyJustification) : Type 0 where
  pub cited : AllCited catalog failures evidence j.specs
  pub governed : GovernedAction
  pub found : get_governed_action name ≡ ok governed
  pub derived : DeriveSame catalog governed j.params j.specs

refuse_with-eq-ok {ℓ} :
    {A : Type ℓ} (refusal : Error) (m : Result A) {a : A} → refuse_with refusal m ≡ ok a → m ≡ ok a
refuse_with-eq-ok refusal (ok a) h = h
refuse_with-eq-ok refusal (err e) h = cc

bindable_or_refuse-eq-ok {ℓ} :
    {A : Type ℓ} (m : Result A) {a : A} → bindable_or_refuse m ≡ ok a → m ≡ ok a
bindable_or_refuse-eq-ok (ok a) h = h
bindable_or_refuse-eq-ok (err e) h = ground arith

cites :
    (o : Option CheckResult) (item : QualityEvidence)
    → not (cites_failure o item) ≡ false
    → (failed : CheckResult) × (o ≡ some failed) × (failed.contract_id ≡ item.contract_id)
cites none item h = cc
cites (some failed) item h = (failed, refl, !=→≡ failed.contract_id item.contract_id (ground arith))

cited_specs-AllCited :
    (catalog : Catalog) (failures : Dict CheckResult) (evidence : List QualityEvidence)
    (specs : List CheckSpec)
    → cited_specs catalog failures evidence ≡ ok specs
    → AllCited catalog failures evidence specs
unfolding cited_specs
cited_specs-AllCited catalog failures [] [] h = tt
cited_specs-AllCited catalog failures [] (spec ∷ specs) h = cc
cited_specs-AllCited catalog failures (item ∷ evidence) specs h =
    let (spec, declared, h₁) = >>=-eq-ok (refuse_with _ _) _ h in
    let (named, h₂) = refuse_if-eq-ok _ _ _ h₁ in
    let (rest, later, h₃) = >>=-eq-ok (cited_specs catalog failures evidence) _ h₂ in
    let (failed, reported, same) = cites (get item.check_id failures) item named in
    let cited : IsCited catalog failures item spec = record {
      declared = refuse_with-eq-ok _ _ declared;
      failed = failed;
      reported = reported;
      same_contract = same;
    } in
    let eq : spec ∷ rest ≡ specs = cc in
    subst (AllCited catalog failures (item ∷ evidence)) eq
      (cited, cited_specs-AllCited catalog failures evidence rest later)

consistent-All :
    (catalog : Catalog) (governed : GovernedAction) (params : Params) (specs : List CheckSpec)
    → consistent catalog governed params specs ≡ ok true
    → All (DerivesEqual catalog governed params) specs
unfolding consistent
consistent-All catalog governed params [] h = tt
consistent-All catalog governed params (spec ∷ specs) h =
    let (own, derived, h₁) = >>=-eq-ok (derive_params catalog governed spec) _ h in
    let same : params_eq own params ≡ true = ground arith in
    let rest : consistent catalog governed params specs ≡ ok true = ground arith in
    (
      (own, derive_params-IsDerived catalog governed spec own derived, same),
      consistent-All catalog governed params specs rest,
    )

derive_all-DeriveSame :
    (catalog : Catalog) (governed : GovernedAction) (params : Params) (specs : List CheckSpec)
    → derive_all catalog governed specs ≡ ok (params, true)
    → DeriveSame catalog governed params specs
derive_all-DeriveSame catalog governed params [] h = cc
derive_all-DeriveSame catalog governed params (spec ∷ specs) h =
    let (own, derived, h₁) = >>=-eq-ok (derive_params catalog governed spec) _ h in
    let (same, agree, h₂) = >>=-eq-ok (consistent catalog governed own specs) _ h₁ in
    let eq : own ≡ params = ground arith in
    let yes_same : same ≡ true = ground arith in
    (
      derive_params-IsDerived catalog governed spec params (cc),
      consistent-All catalog governed params specs (cc),
    )

justified_or_refuse-eq-ok :
    (specs : List CheckSpec) (derived : Params × Bool) (j : CheckPolicyJustification)
    → justified_or_refuse specs derived ≡ ok j
    → (j.specs ≡ specs) × (derived ≡ (j.params, true))
justified_or_refuse-eq-ok specs (params, true) j h = ground arith
justified_or_refuse-eq-ok specs (params, false) j h = ground arith

-- A justified action cites failed checks of the report under their contracts, is governed, and
-- derives valid parameters from every cited check, which agree with those returned.
pub justify_action-IsJustified :
    (catalog : Catalog) (name : String) (evidence : List QualityEvidence)
    (failures : Dict CheckResult) (j : CheckPolicyJustification)
    → justify_action catalog name evidence failures ≡ ok j
    → IsJustified catalog name evidence failures j
unfolding justify_action
justify_action-IsJustified catalog name evidence failures j h =
    let (filled, h₁) = refuse_if-eq-ok (is_empty evidence) _ _ h in
    let (specs, cited, h₂) = >>=-eq-ok (cited_specs catalog failures evidence) _ h₁ in
    let (governed, found, h₃) = >>=-eq-ok (refuse_with _ (get_governed_action name)) _ h₂ in
    let (declared, h₄) = refuse_if-eq-ok (any (undeclared_by name) specs) _ _ h₃ in
    let (derived, bound, h₅) =
      >>=-eq-ok (bindable_or_refuse (derive_all catalog governed specs)) _ h₄ in
    let (same_specs, pair) = justified_or_refuse-eq-ok specs derived j h₅ in
    let all : derive_all catalog governed specs ≡ ok (j.params, true) =
      bindable_or_refuse-eq-ok _ bound ∙ cc in
    record {
      cited =
          subst (AllCited catalog failures evidence) (sym same_specs)
            (cited_specs-AllCited catalog failures evidence specs cited);
      governed = governed;
      found = refuse_with-eq-ok _ _ found;
      derived =
          subst (DeriveSame catalog governed j.params) (sym same_specs)
            (derive_all-DeriveSame catalog governed j.params specs all);
    }
