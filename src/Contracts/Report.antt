-- ===== src/Contracts/Report.antt =====
-- contracts/models.py: quality evidence, from one check's result to the report of a suite.
use airflow_dq_agent.Prelude.{
  ℕ, String, Bool, true, false, ◌||◌, List, map, Option, select, length, is_empty, ltb, find, ◌==◌,
}
use airflow_dq_agent.Contracts.Value.{Params, Datetime}

pub data Dimension : Type 0 where
  completeness validity uniqueness schema_drift referential_integrity : Dimension

pub data CheckStatus : Type 0 where
  pass fail error : CheckStatus

pub record CheckResult : Type 0 where
  pub check_id : String
  pub table : String
  pub column : Option String
  pub dimension : Dimension
  pub status : CheckStatus
  pub n_failed : ℕ
  pub n_total : ℕ
  pub sample_failures : List Params
  pub message : String
  pub contract_id : String
  pub predicate : Option String

abbrev pub is_pass : CheckStatus → Bool
is_pass pass = true
is_pass _ = false

abbrev pub is_fail : CheckStatus → Bool
is_fail fail = true
is_fail _ = false

abbrev pub is_error : CheckStatus → Bool
is_error error = true
is_error _ = false

abbrev pub failed : CheckResult → Bool
failed check = is_fail check.status

pub record QualitySuiteReport : Type 0 where
  pub run_id : String
  pub report_id : String
  pub fingerprint : Option String
  pub audit_event_id : Option String
  pub generated_at : Datetime
  pub checks : List CheckResult
  pub observed_columns : List (String × List String)

abbrev pub failed_checks : QualitySuiteReport → List CheckResult
failed_checks report = select failed report.checks

abbrev pub failed_count : QualitySuiteReport → ℕ
failed_count report = length (failed_checks report)

abbrev pub passed_count : QualitySuiteReport → ℕ
passed_count report = length (select (λ c. is_pass c.status) report.checks)

abbrev pub error_count : QualitySuiteReport → ℕ
error_count report = length (select (λ c. is_error c.status) report.checks)

unfoldable pub incomplete : QualitySuiteReport → Bool
incomplete report = is_empty report.checks || ltb 0 (error_count report)

abbrev pub failing_check_ids : QualitySuiteReport → List String
failing_check_ids report = map (λ c. c.check_id) (failed_checks report)

abbrev pub get_check : QualitySuiteReport → String → Option CheckResult
get_check report check_id = find (λ c. c.check_id == check_id) report.checks
