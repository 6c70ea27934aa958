-- ===== src/Environment.antt =====
-- What the pipeline reads of its surroundings: the process-wide catalogs, the settings (config.py),
-- the SHA-256 fingerprint of canonical JSON (contracts/fingerprints.py), which rests on pydantic,
-- json and hashlib, and functions of Python's library; these are parameters.
use airflow_dq_agent.Prelude.{ℕ, String, Option, map}
use airflow_dq_agent.Contracts.Value.{ℤ, Value, Datetime, text, nat, array, object}
use airflow_dq_agent.Contracts.Report.{CheckStatus, CheckResult, QualitySuiteReport}
use airflow_dq_agent.Quality.Registry.{Catalog}
use airflow_dq_agent.Prelude.{[], ◌∷◌}

-- The thresholds are quotients.
pub record Settings : Type 0 where
  pub eval_citation_threshold : ℕ × ℕ
  pub eval_groundedness_threshold : ℕ × ℕ
  -- the identity `host:port/database` of `warehouse_dsn`, which SQLAlchemy parses
  pub warehouse_environment_id : String

pub record Env : Type 0 where
  pub catalog : Catalog
  pub settings : Settings
  pub canonical_fingerprint : Value → String
  -- `str(value)` of a value that is no text, `f"{hours:g}"` of a quotient, and
  -- `datetime.fromisoformat`, of Python's own library
  pub str : Value → String
  pub format_g : ℕ × ℕ → String
  pub fromisoformat : String → Option Datetime
  -- `date.fromisoformat`, `float(n)` unless it overflows, and `json.loads`
  pub date_fromisoformat : String → Option ℕ
  pub float_of_int : ℤ → Option (ℤ × ℕ)
  pub json_loads : String → Option Value

abbrev pub status_text : CheckStatus → String
status_text CheckStatus.pass = "pass"
status_text CheckStatus.fail = "fail"
status_text CheckStatus.error = "error"

abbrev pub check_payload : CheckResult → Value
check_payload check = object (
    ("check_id", text check.check_id)
    ∷ ("contract_id", text check.contract_id)
    ∷ ("status", text (status_text check.status))
    ∷ ("n_failed", nat check.n_failed)
    ∷ ("n_total", nat check.n_total)
    ∷ [])

abbrev pub report_payload : QualitySuiteReport → Value
report_payload report = object (
    ("quality_run_id", text report.run_id)
    ∷ ("checks", array (map check_payload report.checks))
    ∷ [])

unfoldable pub report_payload_fingerprint : Env → QualitySuiteReport → String
report_payload_fingerprint env report = env.canonical_fingerprint (report_payload report)
