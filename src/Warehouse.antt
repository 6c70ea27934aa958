-- ===== src/Warehouse.antt =====
-- warehouse/db.py and PostgreSQL: the operations that a connection offers. The store of a database is
-- a state of the caller's; SQLAlchemy and the database's own functions are parameters.
use airflow_dq_agent.Prelude.{ℕ, String, Bool, List, Option}
use airflow_dq_agent.Errors.{Error, Result}
use airflow_dq_agent.Contracts.Value.{ℤ, Value, Params}

-- `SET TRANSACTION …` and `SET LOCAL …`, with a timeout in milliseconds
pub data Setting : Type 0 where
  isolation_level_serializable transaction_read_only : Setting
  statement_timeout lock_timeout : ℕ → Setting

-- A row of `dq.committed_apply_result`
pub record CommittedRow : Type 0 where
  pub run_id : Value
  pub plan_id : Value
  pub target_count : Value
  pub rowcount : Value
  pub event_body : Value

-- The arguments of `dq.record_apply_result`. The body is the value that is encoded as JSON.
pub record ApplyRecord : Type 0 where
  pub event_id : String
  pub kind : String
  pub body : Value
  pub run_id : String
  pub plan_id : String
  pub admission_id : String
  pub item_id : String
  pub action_id : String
  pub table_name : String
  pub target_count : ℕ
  pub target_fingerprint : String
  pub rowcount : Option ℤ

-- How a commit ends: with its effects, without them and an error, or with them and an error, as when
-- the connection breaks before the acknowledgement arrives.
pub data CommitOutcome : Type 0 where
  committed : CommitOutcome
  aborted lost : Error → CommitOutcome

-- `begin` gives the store that a new transaction sees, after what other sessions have committed. A
-- query reads the store; a statement that raises ends its transaction.
pub record Database (S : Type 0) : Type 0 where
  pub begin : S → Result S
  pub set : Setting → S → Result S
  pub query : String → Params → S → Result (List (List Value))
  pub execute : String → Params → S → Result (Option ℤ × S)
  pub admission_consumed : String → S → Result Bool
  pub committed_apply_result : String → S → Result (Option CommittedRow)
  pub record_apply_result : ApplyRecord → S → Result S
  pub commit : S → CommitOutcome
