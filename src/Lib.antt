-- ===== src/Lib.antt =====
-- A verification library for the governed data-quality agent (src/airflow_dq_agent).
--
-- The program turns the report of a data-quality suite into an audited repair of a warehouse. A
-- language model only proposes actions; deterministic code decides. A proposal is evaluated, compiled
-- into a plan under the check policy, evaluated again as a plan, reviewed and decided by a human whose
-- decision is audited, admitted for a bounded time, and applied in one serializable transaction. The
-- library models these stages, from the catalogs of contracts, checks and actions up to the result.
--
-- Files, by the code they model:
--   Contracts/Report, Plan, Evaluation, Decision: contracts/models.py, the artifacts as records.
--   Contracts/Tables, Contracts/Remediations: contracts/tables.py and contracts/remediations.py.
--   Contracts/Value: the values of action parameters and of fingerprinted payloads.
--   Environment: contracts/fingerprints.py and the settings of config.py.
--   Quality/Registry, Quality/Construction, Quality/Registration: quality/registry.py; `register_check`
--     gives back the catalog beside its outcome, an error included. Quality/Predicates and
--     Quality/Statements: quality/predicates.py. Load: load.py.
--   Actions, Actions/Derive, Actions/Validate, Actions/Render, Actions/Registered:
--     action_definitions.py.
--   CheckPolicy: check_policy.py.
--   Planning/Payload, Planning/Integrity: planning/integrity.py. Planning/Policy and
--     Planning/Compiler: planning/compiler.py. Planning/Review, Planning/Body: planning/review.py.
--     Planning/Admission: planning/admission.py. The children Compiler/Items, Admission/Durable and
--     Hitl/Output hold parts of their parents' files.
--   Planning/Targets: planning/targets.py. Planning/Preparation: planning/preparation.py. Warehouse: what a database connection offers.
--   Apply/Authority, Apply/Results, Apply/Recovery, Apply/Session, Apply/Transaction, Apply/Execution:
--     apply/executor.py. A statement of the transaction acts on a `Session` (the store that it sees, the
--     clock readings taken, the steps taken); `apply_plan` acts on a `World` (the committed store, the
--     audit trail, the clock readings taken).
--   Evals/Scores, Evals/Candidate, Evals/Plan: evals/harness.py.
--   Traces/Payload, Traces/Lineage: traces/lineage.py.
--   Hitl: hitl.py. Agent/Sanitize: agent/sanitize.py.
--   Pipeline: the stages together, from a report to an admission.
--   Errors: the exceptions, and computations that may raise. Stateful: those that act on a state.
--   Prelude: shared helpers.
--   Tests: one run of all the stages, and the theorems at it.
-- A child module that has no code of its own holds proofs and is named for what they establish. A
-- function of the source has a function of the same name (less a leading underscore).
--
-- What the code reads from elsewhere is a parameter. `Env` holds the catalogs, the settings and
-- `canonical_fingerprint` (canonical JSON by pydantic and json, hashed by hashlib), with `str`, the
-- format `:g` and `datetime.fromisoformat` of Python's library; `Dumps` holds the `model_dump` of what
-- a preparation returns. The target-set resolver, the audit
-- lookup, the write of an audit event (`persist`) and the provider's completion are parameters too;
-- the last two act on a state of the caller's. So is the database: `Database` acts on a store of the
-- caller's, a transaction works on the store that `begin` gives, and its commit takes effect, fails, or
-- takes effect without an acknowledgement. Fresh identifiers and clock readings are arguments.
-- A theorem that relies on a fingerprint's nature says so in a hypothesis: that two given payloads do
-- not collide (`NoCollision`), or that a fingerprint is not the empty text (`IsNonempty`).
--
-- Errors are values. The text of a message is kept where the code shows it in an artifact (the reason
-- of a blocked item, the rationale of a score); other messages are constructors of `Reason` and
-- `Problem` without the values that the text quotes.
-- Numbers are natural numbers without a bound, as Python's integers have none; a float is the
-- quotient it was computed from. A time is a count of microseconds since the epoch and a flag for its
-- zone, all aware times being in UTC. A time to live is not negative; the code refuses a negative one
-- where it refuses zero. Every loop is a structural recursion over a list.
--
-- Not modelled: the SQL functions of the database, the suite that
-- runs the checks (polars, pandera, SQL), the field constraints of pydantic models, the reading
-- of registry files, the agent's calls of a language model, the durable audit store, and the
-- command line, Airflow and demonstration code, which are input and output.
mod Prelude
pub mod Errors
pub mod Stateful
pub mod Contracts
pub mod Quality
pub mod Actions
pub mod CheckPolicy
pub mod Environment
pub mod Planning
pub mod Warehouse
pub mod Apply
pub mod Load
pub mod Evals
pub mod Traces
pub mod Agent
pub mod Hitl
pub mod Pipeline
pub mod Tests
