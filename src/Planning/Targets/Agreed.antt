-- ===== src/Planning/Targets/Agreed.antt =====
-- planning/targets.py: the rows behind two equal target sets.
use airflow_dq_agent.Prelude.{String, ◌≡◌, refl, sym, ap, ◌∙◌, subst, List, [], ◌∷◌, map}
use airflow_dq_agent.Errors.{ok, >>=-eq-ok, ok-injective}
use airflow_dq_agent.Contracts.Value.{Value, Values, values, tuple, Params}
use airflow_dq_agent.Contracts.Plan.{TargetSet, ExecutablePlanItem, freeze_params}
use airflow_dq_agent.Actions.{render_action}
use airflow_dq_agent.Actions.Frozen.{IsFlat, render_action-frozen}
use airflow_dq_agent.Actions.Registered.{get_governed_action}
use airflow_dq_agent.Actions.Render.{RenderedStep}
use airflow_dq_agent.Actions.Rerun.{HasSameQueries, render_action-any_run}
use airflow_dq_agent.Environment.{Env}
use airflow_dq_agent.Planning.Integrity.Verified.{NoCollision}
use airflow_dq_agent.Planning.Targets.{
  Rows, target_rows, fingerprint_target_rows, selected_rows, select_targets, render_by_id, resolve,
  lock_and_resolve, target_set_of,
}
use airflow_dq_agent.Warehouse.{Database}

values-injective : (row other : List Value) → values row ≡ values other → row ≡ other
values-injective [] [] h = refl
values-injective [] (v ∷ vs) h = cc
values-injective (v ∷ vs) [] h = cc
values-injective (v ∷ vs) (w ∷ ws) h = let rest = values-injective vs ws (cc) in cc rest

abbrev tuples : Rows → Values
tuples rows = values (map (λ row. tuple (values row)) rows)

tuples-injective : (rows others : Rows) → tuples rows ≡ tuples others → rows ≡ others
tuples-injective [] [] h = refl
tuples-injective [] (other ∷ others) h = cc
tuples-injective (row ∷ rows) [] h = cc
tuples-injective (row ∷ rows) (other ∷ others) h =
    let first = values-injective row other (cc) in
    let rest = tuples-injective rows others (cc) in cc (first, rest)

target_rows-injective :
    (table : String) (rows others : Rows)
    → target_rows table rows ≡ target_rows table others
    → rows ≡ others
target_rows-injective table rows others h = tuples-injective rows others (cc)

module _ {S : Type 0} (env : Env) (database : Database S) (item : ExecutablePlanItem) where
  -- A rendering of the item has the queries of any other.
  same_queries :
      (run_id other : String) (step again : RenderedStep)
      → render_by_id env database run_id item.action_id item.params item.table ≡ ok step
      → render_by_id env database other item.action_id item.params item.table ≡ ok again
      → HasSameQueries step again
  same_queries run_id other step again h k =
      let (action, found, rendered) = >>=-eq-ok (get_governed_action item.action_id) _ h in
      let (action', found', rendered') = >>=-eq-ok (get_governed_action item.action_id) _ k in
      let (twin, made, same) =
        render_action-any_run env item.action_id action item.table item.params run_id other step
          found rendered in
      let eq : again ≡ twin = cc in subst (HasSameQueries step) (sym eq) same

  -- A rendering of the item has the queries of one from the parameters that the item has frozen.
  compiled_queries :
      (params : Params) (run_id other : String) (step compiled : RenderedStep)
      → IsFlat params
      → item.params ≡ freeze_params params
      → render_by_id env database run_id item.action_id item.params item.table ≡ ok step
      → render_by_id env database other item.action_id params item.table ≡ ok compiled
      → HasSameQueries step compiled
  compiled_queries params run_id other step compiled flat frozen h k =
      let (action, found, rendered) = >>=-eq-ok (get_governed_action item.action_id) _ h in
      let (action', found', rendered') = >>=-eq-ok (get_governed_action item.action_id) _ k in
      let same : action' ≡ action = ok-injective (sym found' ∙ found) in
      render_action-frozen env item.action_id action item.table params run_id other step compiled
        flat found
        (subst (λ p. render_action env action item.table p run_id ≡ ok step) frozen rendered)
        (subst (λ a. render_action env a item.table params other ≡ ok compiled) same rendered')

  -- The rows that a target set is computed of.
  selected :
      (step rendered : RenderedStep) (target : TargetSet) (s : S)
      → HasSameQueries step rendered
      → select_targets env database rendered.target_sql rendered.target_params item.table s
        ≡ ok target
      → (rows : Rows) × (selected_rows env database step.target_sql step.target_params s ≡ ok rows)
        × (target_set_of env item.table rows ≡ target)
  unfolding select_targets
  selected step rendered target s same t =
      let (rows, queried, made) =
        >>=-eq-ok (selected_rows env database rendered.target_sql rendered.target_params s) _ t in
      let own : selected_rows env database step.target_sql step.target_params s ≡ ok rows =
        rw same.target_sql (rw same.target_params queried) in
      (rows, own, ok-injective made)

  -- When the target set that is resolved in one state, in compiling, from parameters of which no one
  -- but the business key is a list, is that which is resolved again in another, in applying, from the
  -- item, which has frozen them, then the query that belongs to the statement of the item, rendered
  -- for any run, selects the same primary keys in both, unless the two selections collide: what is
  -- applied is controlled by the rows that were compiled.
  pub resolved_targets-agree :
      (params : Params) (report_run_id check_id run_id : String) (step : RenderedStep)
      (target : TargetSet) (compiled_in applied_in : S)
      → IsFlat params
      → item.params ≡ freeze_params params
      → ((rows others : Rows) (connected : S)
          → database.begin compiled_in ≡ ok connected
          → selected_rows env database step.target_sql step.target_params connected ≡ ok rows
          → selected_rows env database step.target_sql step.target_params applied_in ≡ ok others
          → NoCollision env (target_rows item.table rows) (target_rows item.table others))
      → render_by_id env database run_id item.action_id item.params item.table ≡ ok step
      → resolve env database report_run_id check_id item.action_id item.table params compiled_in
        ≡ ok target
      → lock_and_resolve env database item applied_in ≡ ok target
      → (connected : S) × (rows : Rows) × (database.begin compiled_in ≡ ok connected)
        × (selected_rows env database step.target_sql step.target_params connected ≡ ok rows)
        × (selected_rows env database step.target_sql step.target_params applied_in ≡ ok rows)
  unfolding resolve lock_and_resolve fingerprint_target_rows
  resolved_targets-agree params report_run_id check_id run_id step target compiled_in applied_in
        flat frozen distinct rendered compiled applied =
      let (s₁, made₁, h₁) =
        >>=-eq-ok (render_by_id env database "target-set" item.action_id params item.table) _
          compiled in
      let (connected, begun, h₂) = >>=-eq-ok (database.begin compiled_in) _ h₁ in
      let (s₂, made₂, h₃) =
        >>=-eq-ok (render_by_id env database "apply" item.action_id item.params item.table) _
          applied in
      let (rows, before, own) =
        selected step s₁ target connected
          (compiled_queries params run_id "target-set" step s₁ flat frozen rendered made₁) h₂ in
      let (others, after, same) =
        selected step s₂ target applied_in (same_queries run_id "apply" step s₂ rendered made₂)
          h₃ in
      let fingerprints = ap (λ t. t.fingerprint) (own ∙ sym same) in
      let equal =
        target_rows-injective item.table rows others
          (distinct rows others connected begun before after fingerprints) in
      (connected, rows, begun, before, after ∙ ap ok (sym equal))
