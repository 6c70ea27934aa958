-- ===== src/CheckPolicy.antt =====
-- check_policy.py: whether a requested action is justified by the failed checks that it cites.
pub mod Justified
pub mod Complete
use airflow_dq_agent.Prelude.{
  String, ◌≡◌, Bool, true, false, not, ◌||◌, List, [], ◌∷◌, Option, none, some, Dict, get, insert,
  any, ◌!=◌, is_empty,
}
use airflow_dq_agent.Errors.{
  Error, Result, ok, err, policy_refusal, runtime_error, is_key_or_value_error, refuse_if,
  try_except, ◌>>=◌, ◌>>◌,
}
use airflow_dq_agent.Contracts.Value.{Params, params_eq}
use airflow_dq_agent.Contracts.Report.{CheckResult, QualitySuiteReport, failed_checks}
use airflow_dq_agent.Contracts.Plan.{QualityEvidence}
use airflow_dq_agent.Quality.Registry.{CheckPolicy, CheckSpec, rule_for, get_check_spec, Catalog}
use airflow_dq_agent.Actions.{GovernedAction, derive_params, unbindable}
use airflow_dq_agent.Actions.Registered.{get_governed_action}

-- `{check.check_id: check for check in checks}`
abbrev pub by_id : Dict CheckResult → List CheckResult → Dict CheckResult
by_id found [] = found
by_id found (check ∷ checks) = by_id (insert check.check_id check found) checks

unfoldable pub failed_checks_by_id : QualitySuiteReport → Dict CheckResult
failed_checks_by_id report = by_id [] (failed_checks report)

pub record CheckPolicyJustification : Type 0 where
  pub specs : List CheckSpec
  pub params : Params

abbrev pub unavailable : String
unavailable = "candidate action is unavailable under the controlled policy"

abbrev pub invalid_evidence : String
invalid_evidence = "candidate evidence is invalid for this quality report"

abbrev pub unsupported : String
unsupported = "requested action is unsupported by the check policy"

-- `except KeyError as exc: raise PolicyRefusal(…)`; nothing else is raised there.
abbrev pub refuse_with {ℓ} : {A : Type ℓ} → Error → Result A → Result A
refuse_with refusal m = try_except m (λ _. err refusal)

abbrev pub cites_failure : Option CheckResult → QualityEvidence → Bool
cites_failure none item = false
cites_failure (some failed) item = not (failed.contract_id != item.contract_id)

-- The loop over the evidence: the cited check specs.
unfoldable pub cited_specs :
    Catalog → Dict CheckResult → List QualityEvidence → Result (List CheckSpec)
cited_specs catalog report_failures [] = ok []
cited_specs catalog report_failures (item ∷ evidence) = do
  spec ←
      refuse_with
        (policy_refusal "quality evidence does not name a declared check"
          "unknown check is not in the quality catalog")
        (get_check_spec catalog.check_specs item.check_id)
  refuse_if (not (cites_failure (get item.check_id report_failures) item))
      (policy_refusal "quality evidence is not a failed check in this report" invalid_evidence)
  specs ← cited_specs catalog report_failures evidence
  ok (spec ∷ specs)

abbrev pub undeclared_by : String → CheckSpec → Bool
undeclared_by action_id spec = elim (rule_for spec action_id) [ none ↦ true | some _ ↦ false ]

-- `all(governed.derive_params(spec) == params for spec in specs)`, which stops at the first that
-- differs.
unfoldable pub consistent : Catalog → GovernedAction → Params → List CheckSpec → Result Bool
consistent catalog governed params [] = ok true
consistent catalog governed params (spec ∷ specs) = do
  derived ← derive_params catalog governed spec
  let rest = consistent catalog governed params specs
  elim (params_eq derived params) [ true ↦ rest | false ↦ ok false ]

-- There is a first spec, since the evidence is not empty.
abbrev pub derive_all : Catalog → GovernedAction → List CheckSpec → Result (Params × Bool)
derive_all catalog governed [] = err (runtime_error "IndexError")
derive_all catalog governed (spec ∷ specs) = do
  params ← derive_params catalog governed spec
  same ← consistent catalog governed params specs
  ok (params, same)

-- `except (KeyError, ValueError) as exc: raise PolicyRefusal(…)`
abbrev pub bindable_or_refuse {ℓ} : {A : Type ℓ} → Result A → Result A
bindable_or_refuse m = try_except m λ e. elim (is_key_or_value_error e) [
  | true ↦
      err (policy_refusal "check policy does not produce a bindable controlled action" unavailable)
  | false ↦ err e
]

abbrev pub justified_or_refuse : List CheckSpec → Params × Bool → Result CheckPolicyJustification
justified_or_refuse specs (params, same) = do
  refuse_if (not same)
      (policy_refusal "evidence requires incompatible controlled parameter values" unavailable)
  ok (record { specs = specs; params = params })

unfoldable pub justify_action :
    Catalog → String → List QualityEvidence → Dict CheckResult → Result CheckPolicyJustification
justify_action catalog action_id evidence report_failures = do
  refuse_if (is_empty evidence)
      (policy_refusal "requested action has no quality evidence" invalid_evidence)
  specs ← cited_specs catalog report_failures evidence
  governed ←
      refuse_with (policy_refusal "requested action is outside the governed catalog" unsupported)
        (get_governed_action action_id)
  refuse_if (any (undeclared_by action_id) specs)
      (policy_refusal "requested action is not declared by the check policy" unsupported)
  derived ← bindable_or_refuse (derive_all catalog governed specs)
  justified_or_refuse specs derived
