-- ===== src/Actions/Rerun.antt =====
-- action_definitions.py: what of a rendered step depends on the run that it is rendered for.
use airflow_dq_agent.Prelude.{subst, String, ◌≡◌, refl, get, All-get, All}
use airflow_dq_agent.Errors.{Result, ok, err, ◌>>=◌, ok-injective}
use airflow_dq_agent.Contracts.Value.{Params}
use airflow_dq_agent.Contracts.Tables.{TableContract, or_key_error-eq-ok}
use airflow_dq_agent.Contracts.Remediations.{RemediationAction}
use airflow_dq_agent.Environment.{Env}
use airflow_dq_agent.Actions.{GovernedAction, render_action}
use airflow_dq_agent.Actions.Derive.{single_pk}
use airflow_dq_agent.Actions.Registered.{governed_actions, get_governed_action}
use airflow_dq_agent.Actions.Render.{
  RenderedStep, quarantine_step, render_no_op, render_nulls, render_invalids, render_orphans,
  render_dedupe, render_null_fill,
}

-- Two steps of one statement and one target query.
pub record HasSameQueries (step other : RenderedStep) : Type 0 where
  pub sql : step.sql ≡ other.sql
  pub target_sql : step.target_sql ≡ other.target_sql
  pub target_params : step.target_params ≡ other.target_params

-- The second rendering succeeds where the first does, with the same queries.
pub record IsRerun (first second : Result RenderedStep) : Type 0 where
  pub again :
      (step : RenderedStep)
      → first ≡ ok step
      → (other : RenderedStep) × (second ≡ ok other) × HasSameQueries step other

IsRerun-ok : (a b : RenderedStep) → HasSameQueries a b → IsRerun (ok a) (ok b)
IsRerun-ok a b same = record {
  again = λ step h. (b, refl, subst (λ x. HasSameQueries x b) (ok-injective h) same);
}

IsRerun-bind {ℓ} :
    {A : Type ℓ} (m : Result A) (f g : A → Result RenderedStep)
    → ((a : A) → IsRerun (f a) (g a))
    → IsRerun (m >>= f) (m >>= g)
IsRerun-bind (ok a) f g k = k a
IsRerun-bind (err e) f g k = record { again = λ step h. cc }

quarantine_step-IsRerun :
    (action : RemediationAction) (contract : TableContract) (clause : String)
    (join run_id other : String)
    → IsRerun
        (quarantine_step action contract clause run_id join)
        (quarantine_step action contract clause other join)
unfolding quarantine_step
quarantine_step-IsRerun action contract clause join run_id other =
    IsRerun-bind (single_pk contract) _ _
      λ pk. IsRerun-ok _ _ (record { sql = refl; target_sql = refl; target_params = refl })

pub record RunsAgain (action : GovernedAction) : Type 0 where
  pub at :
      (env : Env) (contract : TableContract) (params : Params) (run_id other : String)
      → IsRerun
          (action.render env action.metadata contract params run_id)
          (action.render env action.metadata contract params other)

IsRerun-refl : (m : Result RenderedStep) → IsRerun m m
IsRerun-refl m = record {
  again = λ step h. (step, h, record { sql = refl; target_sql = refl; target_params = refl });
}

ruleset rerun_rules = (IsRerun-bind, quarantine_step-IsRerun, IsRerun-refl)

pub registered-RunsAgain : All (λ entry. RunsAgain entry.1) governed_actions
unfolding governed_actions render_no_op render_nulls render_invalids render_orphans render_dedupe
    render_null_fill
registered-RunsAgain = (
  record { at = λ env contract params run_id other. search rerun_rules depth 8 },
  (
    record { at = λ env contract params run_id other. search rerun_rules depth 8 },
    (
      record { at = λ env contract params run_id other. search rerun_rules depth 8 },
      (
        record { at = λ env contract params run_id other. search rerun_rules depth 8 },
        (
          record { at = λ env contract params run_id other. search rerun_rules depth 8 },
          (
            record { at = λ env contract params run_id other. search rerun_rules depth 8 },
            (record { at = λ env contract params run_id other. search rerun_rules depth 8 }, tt),
          ),
        ),
      ),
    ),
  ),
)

-- A governed action that renders for one run renders for every run, with the same statement and the
-- same target query: the rows that are counted and fingerprinted are chosen by the query of the
-- statement that is applied, whatever the run.
pub render_action-any_run :
    (env : Env) (name : String) (action : GovernedAction) (table : String) (params : Params)
    (run_id other : String) (step : RenderedStep)
    → get_governed_action name ≡ ok action
    → render_action env action table params run_id ≡ ok step
    → (again : RenderedStep) × (render_action env action table params other ≡ ok again)
      × HasSameQueries step again
unfolding render_action get_governed_action
render_action-any_run env name action table params run_id other step found h =
    let renders =
      (All-get (λ entry. RunsAgain entry.1) name governed_actions registered-RunsAgain
        (or_key_error-eq-ok name (get name governed_actions) found)).2 in
    let reruns = renders.at env in
    let same : IsRerun (render_action env action table params run_id)
        (render_action env action table params other) =
      search (IsRerun-bind, reruns) depth 8 in
    same.again step h
