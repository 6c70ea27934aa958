-- ===== src/Planning/Admission/Conflicts.antt =====
-- planning/admission.py: what the conflict check of a plan's items establishes.
use airflow_dq_agent.Prelude.{
  String, ◌≡◌, sym, subst, Bool, true, false, List, [], ◌∷◌, ◌++◌, member, any, arith,
}
use airflow_dq_agent.Errors.{Result, ok, err, refuse_if-eq-ok, >>=-eq-ok}
use airflow_dq_agent.Contracts.Plan.{ExecutablePlanItem, RemediationPlan, executable_items}
use airflow_dq_agent.Actions.{GovernedAction, mutates}
use airflow_dq_agent.Actions.Registered.{get_governed_action}
use airflow_dq_agent.Planning.Admission.{
  ItemIdentity, item_identity, item_identity_eq, evidence_ids, add_evidence, add_mutating_table,
  refuse_conflicts, refuse_conflicting_plan_items,
}

-- No element occurs twice, nor among those seen before.
abbrev pub Fresh : List String → List String → Type 0
Fresh seen [] = Unit
Fresh seen (x ∷ xs) = (member x seen ≡ false) × Fresh (x ∷ seen) xs

abbrev pub cited_checks : List ExecutablePlanItem → List String
cited_checks [] = []
cited_checks (item ∷ items) = evidence_ids item ++ cited_checks items

abbrev pub mutates_as : Result GovernedAction → Bool
mutates_as (ok action) = mutates action
mutates_as (err _) = false

abbrev table_if : Bool → String → List String
table_if true table = table ∷ []
table_if false table = []

-- The tables of the items whose actions mutate, as often as they occur.
abbrev pub mutated_tables : List ExecutablePlanItem → List String
mutated_tables [] = []
mutated_tables (item ∷ items) =
    table_if (mutates_as (get_governed_action item.action_id)) item.table ++ mutated_tables items

add_evidence-Fresh :
    (checks ids checks' rest : List String)
    → add_evidence checks ids ≡ ok checks'
    → Fresh checks' rest
    → Fresh checks (ids ++ rest)
unfolding add_evidence
add_evidence-Fresh checks [] checks' rest h k =
    let same : checks ≡ checks' = ground arith in subst (λ c. Fresh c rest) (sym same) k
add_evidence-Fresh checks (x ∷ ids) checks' rest h k =
    let (new, h₁) = refuse_if-eq-ok (member x checks) _ _ h in
    (new, add_evidence-Fresh (x ∷ checks) ids checks' rest h₁ k)

add_mutating_table-Fresh :
    (tables tables' rest : List String) (table : String) (b : Bool)
    → add_mutating_table tables table b ≡ ok tables'
    → Fresh tables' rest
    → Fresh tables (table_if b table ++ rest)
add_mutating_table-Fresh tables tables' rest table false h k =
    let same : tables ≡ tables' = ground arith in subst (λ t. Fresh t rest) (sym same) k
add_mutating_table-Fresh tables tables' rest table true h k =
    let (new, h₁) = refuse_if-eq-ok (member table tables) _ (ok (table ∷ tables)) h in
    let same : table ∷ tables ≡ tables' = ground arith in
    (new, subst (λ t. Fresh t rest) (sym same) k)

conflicts :
    (seen : List ItemIdentity) (checks tables : List String) (items : List ExecutablePlanItem)
    → refuse_conflicts seen checks tables items ≡ ok tt
    → Fresh checks (cited_checks items) × Fresh tables (mutated_tables items)
unfolding refuse_conflicts
conflicts seen checks tables [] h = (tt, tt)
conflicts seen checks tables (item ∷ items) h =
    let (new, h₁) = refuse_if-eq-ok (any (item_identity_eq (item_identity item)) seen) _ _ h in
    let (checks', added, h₂) = >>=-eq-ok (add_evidence checks (evidence_ids item)) _ h₁ in
    let (action, found, h₃) = >>=-eq-ok (get_governed_action item.action_id) _ h₂ in
    let (tables', marked, h₄) =
      >>=-eq-ok (add_mutating_table tables item.table (mutates action)) _ h₃ in
    let (rest_checks, rest_tables) =
      conflicts (item_identity item ∷ seen) checks' tables' items h₄ in
    (
      add_evidence-Fresh checks (evidence_ids item) checks' (cited_checks items) added rest_checks,
      subst (λ r. Fresh tables (table_if (mutates_as r) item.table ++ mutated_tables items))
          (sym found)
          (add_mutating_table-Fresh tables tables' (mutated_tables items) item.table
            (mutates action) marked rest_tables),
    )

-- The items of a plan without conflicts cite no failed check twice, within an item or across items,
-- and no table is mutated by more than one of them.
pub refuse_conflicting_plan_items-Fresh :
    (plan : RemediationPlan)
    → refuse_conflicting_plan_items plan ≡ ok tt
    → Fresh [] (cited_checks (executable_items plan.items))
      × Fresh [] (mutated_tables (executable_items plan.items))
unfolding refuse_conflicting_plan_items
refuse_conflicting_plan_items-Fresh plan h = conflicts [] [] [] (executable_items plan.items) h
