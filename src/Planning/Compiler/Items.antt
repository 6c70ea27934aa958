-- ===== src/Planning/Compiler/Items.antt =====
-- planning/compiler.py: the parts of one plan item, blocked or not, and which requests are duplicates.
use airflow_dq_agent.Prelude.{
  ℕ, String, Bool, true, false, List, [], ◌∷◌, map, Option, Dict, has_key, select, ltb, decimal,
  if◌then◌else◌, length,
}
use airflow_dq_agent.Errors.{
  Error, Result, ok, err, value_error, policy_refusal, database_error, integrity_error,
  is_key_or_value_error, try_except,
}
use airflow_dq_agent.Contracts.Value.{Params}
use airflow_dq_agent.Contracts.Report.{CheckResult}
use airflow_dq_agent.Contracts.Plan.{
  QualityEvidence, CandidateAction, TargetSet, ExecutablePlanItem, PlanItem, executable,
  non_executable,
}
use airflow_dq_agent.Quality.Registry.{CheckSpec}
use airflow_dq_agent.CheckPolicy.{unavailable}
use airflow_dq_agent.Planning.Integrity.{Identity, identity_of, identity_eq}
use Prim.Native.String.{◌++◌ as ◌<>◌}

-- `TargetSetResolver`, and the environment that a resolver may know.
pub record TargetSetResolver : Type 0 where
  pub resolve : (report_run_id check_id action_id table : String) → Params → Result TargetSet
  pub warehouse_environment_id : Option String

abbrev pub item_name : ℕ → String
item_name index = "candidate-" <> decimal index

abbrev pub blocked_item : ℕ → List QualityEvidence → String → PlanItem
blocked_item index evidence reason =
    non_executable (record { item_id = item_name index; evidence = evidence; reason = reason })

abbrev pub candidate_action_identity : CandidateAction → Identity
candidate_action_identity action = identity_of action.action_id action.evidence

-- The identities that `Counter` counts more than once.
abbrev pub requests : Identity → List CandidateAction → ℕ
requests identity actions =
    length (select (λ a. identity_eq identity (candidate_action_identity a)) actions)

unfoldable pub is_duplicate : List CandidateAction → CandidateAction → Bool
is_duplicate actions requested = ltb 1 (requests (candidate_action_identity requested) actions)

abbrev pub is_lookup_error : Error → Bool
is_lookup_error (database_error _) = true
is_lookup_error (integrity_error _) = true
is_lookup_error e = is_key_or_value_error e

-- `except (KeyError, ValueError, SQLAlchemyError) as exc: raise PolicyRefusal(…)`
abbrev pub resolved_or_refuse : Result TargetSet → Result TargetSet
resolved_or_refuse m = try_except m λ e. elim (is_lookup_error e) [
  | true ↦
      err (policy_refusal "target lookup failed" "remediation target set could not be resolved")
  | false ↦ err e
]

-- There is a first spec, since the evidence is not empty.
abbrev pub first_spec : List CheckSpec → Result CheckSpec
first_spec [] = err (value_error "IndexError")
first_spec (spec ∷ specs) = ok spec

abbrev pub cited_failures : Dict CheckResult → List QualityEvidence → List String
cited_failures failures evidence =
    select (λ check_id. has_key check_id failures) (map (λ e. e.check_id) evidence)

-- `exc.blocked_reason if isinstance(exc, PolicyRefusal) else …`
abbrev pub reason_of : Error → String
reason_of (policy_refusal _ blocked_reason) = blocked_reason
reason_of _ = unavailable

-- `except (KeyError, ValueError) as exc`
abbrev pub item_or_blocked :
    Dict CheckResult
    → ℕ
    → CandidateAction
    → Result ExecutablePlanItem
    → Result (PlanItem × List String)
item_or_blocked failures index requested (ok item) =
    ok (executable item, map (λ e. e.check_id) requested.evidence)
item_or_blocked failures index requested (err e) =
    if is_key_or_value_error e
    then ok (
      blocked_item index requested.evidence (reason_of e),
      cited_failures failures requested.evidence,
    )
    else err e

abbrev pub duplicate_reason : String
duplicate_reason = "duplicate candidate action and quality evidence"
