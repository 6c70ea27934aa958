-- ===== src/CheckPolicy/Complete.antt =====
-- check_policy.py: from what a justification rests on back to the justification.
use airflow_dq_agent.Prelude.{
  String, ◌≡◌, refl, subst, true, false, not, ◌↔◌, List, [], ◌∷◌, Option, some, Dict, get, any, All,
  ◌!=◌, eq_iff, is_empty, arith,
}
use airflow_dq_agent.Errors.{ok}
use airflow_dq_agent.Contracts.Value.{Params}
use airflow_dq_agent.Contracts.Report.{CheckResult}
use airflow_dq_agent.Contracts.Plan.{QualityEvidence}
use airflow_dq_agent.Quality.Registry.{CheckSpec, rule_for, Catalog}
use airflow_dq_agent.Actions.{GovernedAction, action_id}
use airflow_dq_agent.Actions.Registered.{get_governed_action-action_id}
use airflow_dq_agent.Actions.Derived.{IsDerived, IsDerived-derive_params}
use airflow_dq_agent.CheckPolicy.{
  CheckPolicyJustification, justify_action, cited_specs, cites_failure, undeclared_by, consistent,
  derive_all,
}
use airflow_dq_agent.CheckPolicy.Justified.{
  AllCited, DerivesEqual, DeriveSame, IsJustified, justify_action-IsJustified,
}

equal_contract : (a b : String) → a ≡ b → not (not (a != b)) ≡ false
equal_contract a b h = ground (arith, eq_iff a b)

cites_of :
    (failed : CheckResult) (item : QualityEvidence) (o : Option CheckResult)
    → o ≡ some failed
    → failed.contract_id ≡ item.contract_id
    → not (cites_failure o item) ≡ false
cites_of failed item o h same = rw h (equal_contract failed.contract_id item.contract_id same)

AllCited-cited_specs :
    (catalog : Catalog) (failures : Dict CheckResult) (evidence : List QualityEvidence)
    (specs : List CheckSpec)
    → AllCited catalog failures evidence specs
    → cited_specs catalog failures evidence ≡ ok specs
unfolding cited_specs
AllCited-cited_specs catalog failures [] [] h = refl
AllCited-cited_specs catalog failures [] (spec ∷ specs) h = absurd h
AllCited-cited_specs catalog failures (item ∷ evidence) [] h = absurd h
AllCited-cited_specs catalog failures (item ∷ evidence) (spec ∷ specs) h =
    let c = h.0 in
    rw (
      c.declared,
      cites_of c.failed item (get item.check_id failures) c.reported c.same_contract,
      AllCited-cited_specs catalog failures evidence specs h.1,
    )

All-consistent :
    (catalog : Catalog) (governed : GovernedAction) (params : Params) (specs : List CheckSpec)
    → All (DerivesEqual catalog governed params) specs
    → consistent catalog governed params specs ≡ ok true
unfolding consistent
All-consistent catalog governed params [] h = refl
All-consistent catalog governed params (spec ∷ specs) h = ground (
  arith,
  IsDerived-derive_params catalog governed spec h.0.0 h.0.1,
  h.0.2,
  All-consistent catalog governed params specs h.1,
)

DeriveSame-derive_all :
    (catalog : Catalog) (governed : GovernedAction) (params : Params) (specs : List CheckSpec)
    → DeriveSame catalog governed params specs
    → derive_all catalog governed specs ≡ ok (params, true)
DeriveSame-derive_all catalog governed params [] h = absurd h
DeriveSame-derive_all catalog governed params (spec ∷ specs) h = rw (
  IsDerived-derive_params catalog governed spec params h.0,
  All-consistent catalog governed params specs h.1,
)

-- A check from which parameters derive declares the action.
IsDerived-declared :
    (catalog : Catalog) (governed : GovernedAction) (name : String) (spec : CheckSpec)
    (params : Params)
    → action_id governed ≡ name
    → IsDerived catalog governed spec params
    → undeclared_by name spec ≡ false
IsDerived-declared catalog governed name spec params same d =
    let declared = subst (λ n. rule_for spec n ≡ some d.rule) same d.declared in ground arith

All-declared :
    (catalog : Catalog) (governed : GovernedAction) (name : String) (params : Params)
    (specs : List CheckSpec)
    → action_id governed ≡ name
    → All (DerivesEqual catalog governed params) specs
    → any (undeclared_by name) specs ≡ false
All-declared catalog governed name params [] same h = refl
All-declared catalog governed name params (spec ∷ specs) same h = rw (
  IsDerived-declared catalog governed name spec h.0.0 same h.0.1,
  All-declared catalog governed name params specs same h.1,
)

DeriveSame-declared :
    (catalog : Catalog) (governed : GovernedAction) (name : String) (params : Params)
    (specs : List CheckSpec)
    → action_id governed ≡ name
    → DeriveSame catalog governed params specs
    → any (undeclared_by name) specs ≡ false
DeriveSame-declared catalog governed name params [] same h = absurd h
DeriveSame-declared catalog governed name params (spec ∷ specs) same h = rw (
  IsDerived-declared catalog governed name spec params same h.0,
  All-declared catalog governed name params specs same h.1,
)

filled :
    (catalog : Catalog) (failures : Dict CheckResult) (governed : GovernedAction) (params : Params)
    (evidence : List QualityEvidence) (specs : List CheckSpec)
    → AllCited catalog failures evidence specs
    → DeriveSame catalog governed params specs
    → is_empty evidence ≡ false
filled catalog failures governed params [] [] c d = absurd d
filled catalog failures governed params [] (spec ∷ specs) c d = absurd c
filled catalog failures governed params (item ∷ evidence) specs c d = refl

-- The justification is exactly the declarative one: a request is justified with certain specs and
-- parameters exactly when they are those of failed, declared checks that it cites, which all derive
-- the same valid parameters for a governed action.
pub justify_action_iff :
    (catalog : Catalog) (name : String) (evidence : List QualityEvidence)
    (failures : Dict CheckResult) (j : CheckPolicyJustification)
    → (justify_action catalog name evidence failures ≡ ok j)
      ↔ IsJustified catalog name evidence failures j
unfolding justify_action
justify_action_iff catalog name evidence failures j = (
  justify_action-IsJustified catalog name evidence failures j,
  λ h.
      let same = get_governed_action-action_id name h.governed h.found in
      rw (
        filled catalog failures h.governed j.params evidence j.specs h.cited h.derived,
        AllCited-cited_specs catalog failures evidence j.specs h.cited,
        h.found,
        DeriveSame-declared catalog h.governed name j.params j.specs same h.derived,
        DeriveSame-derive_all catalog h.governed j.params j.specs h.derived,
      ),
)
