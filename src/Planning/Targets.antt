-- ===== src/Planning/Targets.antt =====
-- planning/targets.py: the exact set of rows that a governed action is about, and its fingerprint.
pub mod Agreed
use airflow_dq_agent.Prelude.{
  String, ◌≡◌, refl, sym, ap, ◌∙◌, List, [], ◌∷◌, map, Option, none, some, length,
}
use airflow_dq_agent.Errors.{Result, ok, ◌>>=◌, >>=-eq-ok, ok-injective}
use airflow_dq_agent.Contracts.Value.{Value, Values, values, text, tuple, array, object, Params}
use airflow_dq_agent.Contracts.Plan.{TargetSet, ExecutablePlanItem}
use airflow_dq_agent.Actions.{render_action}
use airflow_dq_agent.Actions.Registered.{get_governed_action}
use airflow_dq_agent.Actions.Render.{RenderedStep}
use airflow_dq_agent.Environment.{Env}
use airflow_dq_agent.Warehouse.{Database}

abbrev pub Rows : Type 0
Rows = List (List Value)

-- The rows, which are tuples, under the table's name.
abbrev pub target_rows : String → Rows → Value
target_rows table rows =
    object
      (("table", text table) ∷ ("primary_keys", array (map (λ row. tuple (values row)) rows)) ∷ [])

unfoldable pub fingerprint_target_rows : Env → String → Rows → String
fingerprint_target_rows env table rows = env.canonical_fingerprint (target_rows table rows)

abbrev pub target_set_of : Env → String → Rows → TargetSet
target_set_of env table rows = record {
  count = length rows;
  fingerprint = fingerprint_target_rows env table rows;
}

module _ {S : Type 0} (env : Env) (database : Database S) where
  -- The rows that a controlled query selects: none, where there is no query.
  abbrev pub selected_rows : Option String → Params → S → Result Rows
  selected_rows none params s = ok []
  selected_rows (some target_sql) params s = database.query target_sql params s

  -- `_select`
  unfoldable pub select_targets : Option String → Params → String → S → Result TargetSet
  select_targets target_sql params table s = do
    rows ← selected_rows target_sql params s
    ok (target_set_of env table rows)

  abbrev pub render_by_id : String → String → Params → String → Result RenderedStep
  render_by_id run_id action_id params table = do
    action ← get_governed_action action_id
    render_action env action table params run_id

  abbrev resolve_as : String → String → String → Params → S → Result TargetSet
  resolve_as run_id action_id table params s = do
    rendered ← render_by_id run_id action_id params table
    select_targets rendered.target_sql rendered.target_params table s

  unfoldable pub resolve :
      (report_run_id check_id action_id table : String) (params : Params) → S → Result TargetSet
  unfolding select_targets
  resolve report_run_id check_id action_id table params s = do
    rendered ← render_by_id "target-set" action_id params table
    connected ← database.begin s
    select_targets rendered.target_sql rendered.target_params table connected

  unfoldable pub lock_and_resolve : ExecutablePlanItem → S → Result TargetSet
  unfolding select_targets
  lock_and_resolve item s = resolve_as "apply" item.action_id item.table item.params s

  unfoldable pub resolve_item : ExecutablePlanItem → S → Result TargetSet
  unfolding select_targets
  resolve_item item s = resolve_as "dry-run" item.action_id item.table item.params s
