-- ===== src/Tests/Samples.antt =====
-- A catalog of one table with two checks, a report in which they fail, and a proposal for it.
use airflow_dq_agent.Prelude.{
  ℕ, suc, ◌+◌, String, Bool, true, false, List, [], ◌∷◌, Option, none, some, decimal, ◌==◌, ◌≡◌,
  refl, Bool-cases, inl, inr, if◌then◌else◌,
}
use airflow_dq_agent.Errors.{Result, ok, err}
use airflow_dq_agent.Contracts.Value.{
  Value, list, tuple, dict, Values, nil, cons, Fields, end, field, Datetime,
}
use airflow_dq_agent.Contracts.Tables.{DType, ColumnContract, TableContract}
use airflow_dq_agent.Contracts.Report.{Dimension, CheckStatus, CheckResult, QualitySuiteReport}
use airflow_dq_agent.Contracts.Plan.{CandidateAction, Proposal}
use airflow_dq_agent.Quality.Registry.{CheckPolicy, CheckSpec, Catalog}
use airflow_dq_agent.Environment.{Env}
use Prim.Native.String.{◌++◌}

-- The number of parts of a value.
unfoldable mutual
  pub size : Value → ℕ
  size (list vs) = suc (sizes vs)
  size (tuple vs) = suc (sizes vs)
  size (dict fs) = suc (size_fields fs)
  size _ = 1

  pub sizes : Values → ℕ
  sizes nil = 0
  sizes (cons v vs) = size v + sizes vs

  pub size_fields : Fields → ℕ
  size_fields end = 0
  size_fields (field k v fs) = size v + size_fields fs

abbrev pub fingerprint_text : Value → String
fingerprint_text v = "sha256:" ++ decimal (size v)

abbrev pub or_default : String → String
or_default s = if s == "" then "sha256:" else s

pub or_default-nonempty : (s : String) → (or_default s == "") ≡ false
or_default-nonempty s = elim (Bool-cases (s == "")) [ inl e ↦ rw e refl | inr e ↦ rw e e ]

abbrev pub column_of : String → Bool → ColumnContract
column_of name nullable = record {
  name = name;
  dtype = DType.utf8;
  nullable = nullable;
  unique = false;
  allowed_values = none;
  description = "";
}

abbrev pub invoice : TableContract
invoice = record {
  table = "invoice";
  schema_name = "warehouse";
  grain = "one row per invoice";
  description = "";
  columns = column_of "invoice_id" false ∷ column_of "amount" true ∷ column_of "status" true ∷ [];
  primary_key = "invoice_id" ∷ [];
  foreign_keys = [];
}

abbrev spec_of : String → String → List CheckPolicy → CheckSpec
spec_of check_id column policies = record {
  check_id = check_id;
  table = "invoice";
  column = some column;
  dimension = Dimension.completeness;
  description = "";
  contract_id = "warehouse.invoice";
  policies = policies;
  contains = none;
  window_start_column = none;
  window_end_column = none;
  business_key = none;
  sample_sql = "";
  quarantine_predicate = none;
}

abbrev pub quarantine : CheckPolicy
quarantine = record { action_id = "quarantine_nulls"; parameters = [] }

abbrev pub alert : CheckPolicy
alert = record { action_id = "no_op_alert"; parameters = [] }

abbrev pub amount_spec : CheckSpec
amount_spec = spec_of "invoice.amount" "amount" (quarantine ∷ [])

abbrev pub status_spec : CheckSpec
status_spec = spec_of "invoice.status" "status" (alert ∷ [])

abbrev pub catalog : Catalog
catalog = record {
  table_contracts = ("invoice", invoice) ∷ [];
  check_specs = ("invoice.amount", amount_spec) ∷ ("invoice.status", status_spec) ∷ [];
}

abbrev pub env : Env
env = record {
  catalog = catalog;
  settings = record {
    eval_citation_threshold = (1, 1);
    eval_groundedness_threshold = (1, 1);
    warehouse_environment_id = "localhost:5432/dq";
  };
  canonical_fingerprint = λ v. or_default (fingerprint_text v);
  str = λ v. "";
  format_g = λ q. "1";
  fromisoformat = λ s. none;
  date_fromisoformat = λ s. none;
  float_of_int = λ z. some (z, 1);
  json_loads = λ s. none;
}

abbrev pub at : ℕ → Datetime
at micros = record { aware = true; micros = micros }

abbrev pub result : String → CheckStatus → CheckResult
result check_id status = record {
  check_id = check_id;
  table = "invoice";
  column = none;
  dimension = Dimension.completeness;
  status = status;
  n_failed = 3;
  n_total = 10;
  sample_failures = [];
  message = "";
  contract_id = "warehouse.invoice";
  predicate = none;
}

abbrev pub report_of : Option String → List CheckResult → QualitySuiteReport
report_of fingerprint checks = record {
  run_id = "run-1";
  report_id = "report-1";
  fingerprint = fingerprint;
  audit_event_id = none;
  generated_at = at 10;
  checks = checks;
  observed_columns = [];
}

abbrev pub failures : List CheckResult
failures = result "invoice.amount" CheckStatus.fail ∷ result "invoice.status" CheckStatus.fail ∷ []

abbrev pub action : String → String → CandidateAction
action action_id check_id = record {
  action_id = action_id;
  evidence = record { check_id = check_id; contract_id = "warehouse.invoice" } ∷ [];
  rationale = "";
}

abbrev pub proposal : Proposal
proposal = record {
  proposal_id = "proposal-1";
  fingerprint = none;
  summary = "";
  root_cause_hypothesis = "";
  candidate_actions =
      action "quarantine_nulls" "invoice.amount" ∷ action "no_op_alert" "invoice.status" ∷ [];
  do_not_apply_reasons = [];
  confidence = (1, 2);
}

abbrev pub value_or {ℓ} : {A : Type ℓ} → A → Result A → A
value_or a (ok b) = b
value_or a (err e) = a
