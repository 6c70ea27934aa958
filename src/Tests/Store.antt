-- ===== src/Tests/Store.antt =====
-- A small database: the keys that every query selects, the rows that were copied, and the results that
-- were recorded, by admission.
use airflow_dq_agent.Prelude.{
  ℕ, ◌≡◌, refl, ap, subst, Bool, true, false, List, [], ◌∷◌, none, some, get, has_key, insert, Dict,
  length, has_key-insert, ◌==◌, eq_refl, ◌+◌,
}
use airflow_dq_agent.Errors.{Result, ok, err, integrity_error, ok-injective, >>=-eq-ok}
use airflow_dq_agent.Contracts.Value.{pos, Value, text, nat}
use airflow_dq_agent.Apply.Once.{IsLedger}
use airflow_dq_agent.Evals.Plan.Admissible.{ResolvesNonempty}
use airflow_dq_agent.Planning.Compiler.{TargetSetResolver}
use airflow_dq_agent.Planning.Targets.{
  resolve, select_targets, selected_rows, render_by_id, fingerprint_target_rows, target_rows,
}
use airflow_dq_agent.Tests.Samples.{env, fingerprint_text, or_default-nonempty}
use airflow_dq_agent.Warehouse.{Database, ApplyRecord, CommittedRow, committed}

pub record Store : Type 0 where
  pub keys : List (List Value)
  pub copied : ℕ
  pub results : Dict CommittedRow

abbrev row_of : ApplyRecord → CommittedRow
row_of r = record {
  run_id = text r.run_id;
  plan_id = text r.plan_id;
  target_count = nat r.target_count;
  rowcount = nat 0;
  event_body = r.body;
}

abbrev record_in : ApplyRecord → Store → Bool → Result Store
record_in r s true = err (integrity_error "23505")
record_in r s false = ok (record s { results = insert r.admission_id (row_of r) s.results })

abbrev pub database : Database Store
database = record {
  begin = λ s. ok s;
  set = λ setting s. ok s;
  query = λ sql params s. ok s.keys;
  execute = λ sql params s.
      ok (some (pos (length s.keys)), record s { copied = s.copied + length s.keys });
  admission_consumed = λ id s. ok (has_key id s.results);
  committed_apply_result = λ id s. ok (get id s.results);
  record_apply_result = λ r s. record_in r s (has_key r.admission_id s.results);
  commit = λ s. committed;
}

abbrev pub store : Store
store = record {
  keys = (text "1" ∷ []) ∷ (text "2" ∷ []) ∷ (text "3" ∷ []) ∷ [];
  copied = 0;
  results = [];
}

abbrev pub resolver : TargetSetResolver
resolver = record {
  resolve = λ run check_id action_id table params.
      resolve env database run check_id action_id table params store;
  warehouse_environment_id = none;
}

recorded :
    (r : ApplyRecord) (s s' : Store) (b : Bool)
    → record_in r s b ≡ ok s'
    → has_key r.admission_id s'.results ≡ true
recorded r s s' true h = cc
recorded r s s' false h =
    let same : record s { results = insert r.admission_id (row_of r) s.results } ≡ s' =
      ok-injective h in
    let added : has_key r.admission_id (insert r.admission_id (row_of r) s.results) ≡ true =
      rw (has_key-insert r.admission_id r.admission_id (row_of r) s.results, eq_refl r.admission_id)
        refl in
    subst (λ t. has_key r.admission_id t.results ≡ true) same added

pub ledger : IsLedger database
ledger = record {
  records = λ r s s' named h. ap ok (recorded r s s' (has_key r.admission_id s.results) h);
  begins =
      λ id s s' h k. subst (λ t. database.admission_consumed id t ≡ ok true) (ok-injective h) k;
  sets = λ setting id s s' h k.
      subst (λ t. database.admission_consumed id t ≡ ok true) (ok-injective h) k;
}

pub resolves : ResolvesNonempty resolver
unfolding resolve select_targets fingerprint_target_rows
resolves run check_id action_id table params t h =
    let (rendered, made, h₁) =
      >>=-eq-ok (render_by_id env database "target-set" action_id params table) _ h in
    let (rows, queried, h₂) =
      >>=-eq-ok (selected_rows env database rendered.target_sql rendered.target_params store) _
        h₁ in
    subst (λ u. (u.fingerprint == "") ≡ false) (ok-injective h₂)
      (or_default-nonempty (fingerprint_text (target_rows table rows)))
