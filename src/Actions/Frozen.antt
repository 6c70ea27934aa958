-- ===== src/Actions/Frozen.antt =====
-- action_definitions.py: rendering from parameters that a plan item has frozen, lists as tuples.
use Prim.Native.String.{◌++◌}
use airflow_dq_agent.Prelude.{
  subst, not, is_empty, String, ◌≡◌, refl, sym, ap, ◌∙◌, true, false, [], ◌∷◌, Option, none, some,
  get, ◌==◌, All, All-get, Bool-cases, inl, inr,
}
use airflow_dq_agent.Errors.{
  Result, ok, err, value_error, ok-injective, >>=-eq-ok, refuse_if-eq-ok, ◌>>=◌,
}
use airflow_dq_agent.Contracts.Value.{
  Value, null, text, bool, int, float, timestamp, date, dict, list, tuple, Values, Params,
}
use airflow_dq_agent.Contracts.Plan.{freeze, freeze_params}
use airflow_dq_agent.Contracts.Tables.{
  TableContract, get_table_contract, or_key_error, or_key_error-eq-ok,
}
use airflow_dq_agent.Environment.{Env}
use airflow_dq_agent.Contracts.Remediations.{RemediationAction}
use airflow_dq_agent.Actions.{GovernedAction, render_action, validate_params, unrenderable}
use airflow_dq_agent.Actions.Registered.{governed_actions, get_governed_action}
use airflow_dq_agent.Actions.Rerun.{HasSameQueries, RunsAgain, registered-RunsAgain}
use airflow_dq_agent.Actions.Render.{
  RenderedStep, parameter, quote, quoted_table, str_of, quoted_keys, render_no_op, render_nulls,
  render_invalids, render_orphans, render_dedupe, render_null_fill, quarantine_step,
}

-- No parameter is a list but the business key.
abbrev pub IsFlat : Params → Type 0
IsFlat params =
    (key : String) (vs : Values) → get key params ≡ some (list vs) → (key == "business_key") ≡ true

abbrev frozen_option : Option Value → Option Value
frozen_option none = none
frozen_option (some v) = some (freeze v)

get-freeze_params :
    (key : String) (params : Params)
    → get key (freeze_params params) ≡ frozen_option (get key params)
get-freeze_params key [] = refl
get-freeze_params key ((k, v) ∷ params) = elim (Bool-cases (k == key)) [
  | inl e ↦ rw e refl
  | inr e ↦ rw e (get-freeze_params key params)
]

module _ (params : Params) (flat : IsFlat params) where
  unfrozen :
      (key : String) (o : Option Value)
      → get key params ≡ o
      → (key == "business_key") ≡ false
      → frozen_option o ≡ o
  unfrozen key none e h = refl
  unfrozen key (some (list vs)) e h = let listed = flat key vs e in cc
  unfrozen key (some null) e h = refl
  unfrozen key (some (bool b)) e h = refl
  unfrozen key (some (int z)) e h = refl
  unfrozen key (some (float z d)) e h = refl
  unfrozen key (some (text s)) e h = refl
  unfrozen key (some (timestamp t)) e h = refl
  unfrozen key (some (date d)) e h = refl
  unfrozen key (some (tuple vs)) e h = refl
  unfrozen key (some (dict fs)) e h = refl

  -- A parameter that is no business key is the same.
  parameter-frozen :
      (key : String)
      → (key == "business_key") ≡ false
      → parameter (freeze_params params) key ≡ parameter params key
  parameter-frozen key h =
      ap (or_key_error key) (get-freeze_params key params ∙ unfrozen key (get key params) refl h)

bind_cong {ℓ} :
    {A : Type ℓ} (m n : Result A) (f g : A → Result RenderedStep)
    → m ≡ n
    → ((a : A) → f a ≡ g a)
    → (m >>= f) ≡ (n >>= g)
bind_cong m (ok a) f g h k = ap (λ r. r >>= f) h ∙ k a
bind_cong m (err e) f g h k = ap (λ r. r >>= f) h

bind_frozen :
    (key : String) (o : Option Value) (f g : Value → Result RenderedStep)
    → ((v : Value) → f (freeze v) ≡ g v)
    → (or_key_error key (frozen_option o) >>= f) ≡ (or_key_error key o >>= g)
bind_frozen key none f g k = refl
bind_frozen key (some v) f g k = k v

quoted_keys-freeze : (env : Env) (v : Value) → quoted_keys env (freeze v) ≡ quoted_keys env v
quoted_keys-freeze env (list vs) = refl
quoted_keys-freeze env null = refl
quoted_keys-freeze env (bool b) = refl
quoted_keys-freeze env (int z) = refl
quoted_keys-freeze env (float z d) = refl
quoted_keys-freeze env (text s) = refl
quoted_keys-freeze env (timestamp t) = refl
quoted_keys-freeze env (date d) = refl
quoted_keys-freeze env (tuple vs) = refl
quoted_keys-freeze env (dict fs) = refl

-- Rendering from frozen parameters gives what rendering from the parameters gives.
pub record RendersFrozen (action : GovernedAction) : Type 0 where
  pub at :
      (env : Env) (contract : TableContract) (params : Params) (run_id : String)
      → IsFlat params
      → action.render env action.metadata contract (freeze_params params) run_id
        ≡ action.render env action.metadata contract params run_id

module _ (env : Env) (action : RemediationAction) (contract : TableContract) (params : Params)
    (run_id : String) (flat : IsFlat params) where
  render_nulls-frozen :
      render_nulls env action contract (freeze_params params) run_id
      ≡ render_nulls env action contract params run_id
  unfolding render_nulls
  render_nulls-frozen =
      bind_cong _ _ _ _ (parameter-frozen params flat "column" refl) λ column. refl

  render_invalids-frozen :
      render_invalids env action contract (freeze_params params) run_id
      ≡ render_invalids env action contract params run_id
  unfolding render_invalids
  render_invalids-frozen =
      bind_cong _ _ _ _ (parameter-frozen params flat "check_id" refl) λ check_id. refl

  render_orphans-frozen :
      render_orphans env action contract (freeze_params params) run_id
      ≡ render_orphans env action contract params run_id
  unfolding render_orphans
  render_orphans-frozen =
      bind_cong _ _ _ _ (parameter-frozen params flat "ref_table" refl) λ ref_table.
        bind_cong _ _ _ _ refl λ ref.
          bind_cong _ _ _ _ (parameter-frozen params flat "fk_column" refl)
            λ fk. bind_cong _ _ _ _ (parameter-frozen params flat "ref_column" refl) λ name. refl

  render_null_fill-frozen :
      render_null_fill env action contract (freeze_params params) run_id
      ≡ render_null_fill env action contract params run_id
  unfolding render_null_fill
  render_null_fill-frozen =
      bind_cong _ _ _ _ (parameter-frozen params flat "column" refl)
        λ column. bind_cong _ _ _ _ (parameter-frozen params flat "fill_value" refl) λ given. refl

  -- The step of one primary key and one grouping.
  abbrev dedupe_by : Value → String → Result RenderedStep
  dedupe_by pk_column grouping =
      let pk = quote (str_of env pk_column) in
      quarantine_step action contract
        ("t."
          ++ (pk
              ++ (" NOT IN (SELECT MIN(s."
                  ++ (pk
                      ++ (") FROM "
                          ++ (quoted_table contract ++ (" s GROUP BY " ++ (grouping ++ ")"))))))))
        run_id ""

  abbrev dedupe_on : Params → Value → Result RenderedStep
  dedupe_on given business_key =
      parameter given "pk_column" >>= λ pk. dedupe_by pk (quoted_keys env business_key)

  -- The business key is the one parameter that freezing changes, and its columns stay.
  render_dedupe-frozen :
      render_dedupe env action contract (freeze_params params) run_id
      ≡ render_dedupe env action contract params run_id
  unfolding render_dedupe
  render_dedupe-frozen =
      ap (λ o. or_key_error "business_key" o >>= dedupe_on (freeze_params params))
        (get-freeze_params "business_key" params)
      ∙ bind_frozen "business_key" (get "business_key" params) (dedupe_on (freeze_params params))
          (dedupe_on params)
          λ v.
            bind_cong (parameter (freeze_params params) "pk_column") (parameter params "pk_column")
              (λ pk. dedupe_by pk (quoted_keys env (freeze v)))
              (λ pk. dedupe_by pk (quoted_keys env v))
              (parameter-frozen params flat "pk_column" refl)
              λ pk. ap (dedupe_by pk) (quoted_keys-freeze env v)

registered-RendersFrozen : All (λ entry. RendersFrozen entry.1) governed_actions
unfolding governed_actions render_no_op
registered-RendersFrozen = (
  record { at = λ e c p r f. refl },
  (
    record { at = λ e c p r f. render_nulls-frozen e _ c p r f },
    (
      record { at = λ e c p r f. render_invalids-frozen e _ c p r f },
      (
        record { at = λ e c p r f. render_null_fill-frozen e _ c p r f },
        (
          record { at = λ e c p r f. render_orphans-frozen e _ c p r f },
          (
            record { at = λ e c p r f. render_dedupe-frozen e _ c p r f },
            (record { at = λ e c p r f. refl }, tt),
          ),
        ),
      ),
    ),
  ),
)

-- A governed action that renders from parameters for one run, and from the frozen ones for another,
-- renders the same statement and the same target query.
pub render_action-frozen :
    (env : Env) (name : String) (action : GovernedAction) (table : String) (params : Params)
    (run_id other : String) (step again : RenderedStep)
    → IsFlat params
    → get_governed_action name ≡ ok action
    → render_action env action table (freeze_params params) run_id ≡ ok step
    → render_action env action table params other ≡ ok again
    → HasSameQueries step again
unfolding render_action get_governed_action
render_action-frozen env name action table params run_id other step again flat found h k =
    let (problems, validated, h₁) =
      >>=-eq-ok (validate_params env.catalog action table (freeze_params params)) _ h in
    let (clean, h₂) = refuse_if-eq-ok (not (is_empty problems)) (value_error unrenderable) _ h₁ in
    let (contract, contracted, h₃) =
      >>=-eq-ok (get_table_contract env.catalog.table_contracts table) _ h₂ in
    let (problems', validated', k₁) =
      >>=-eq-ok (validate_params env.catalog action table params) _ k in
    let (clean', k₂) = refuse_if-eq-ok (not (is_empty problems')) (value_error unrenderable) _ k₁ in
    let (contract', contracted', k₃) =
      >>=-eq-ok (get_table_contract env.catalog.table_contracts table) _ k₂ in
    let same : contract' ≡ contract = ok-injective (sym contracted' ∙ contracted) in
    let entry = or_key_error-eq-ok name (get name governed_actions) found in
    let frozen =
      (All-get (λ entry. RendersFrozen entry.1) name governed_actions registered-RendersFrozen
        entry).2 in
    let reruns =
      (All-get (λ entry. RunsAgain entry.1) name governed_actions registered-RunsAgain entry).2 in
    let thawed : action.render env action.metadata contract params run_id ≡ ok step =
      sym (frozen.at env contract params run_id flat) ∙ h₃ in
    let (twin, made, queries) = (reruns.at env contract params run_id other).again step thawed in
    let end : action.render env action.metadata contract params other ≡ ok again =
      subst (λ c. action.render env action.metadata c params other ≡ ok again) same k₃ in
    subst (HasSameQueries step) (ok-injective (sym made ∙ end)) queries
