-- ===== src/Apply.antt =====
-- apply/: the transactional execution of an admitted plan.
pub mod Session
pub mod Results
pub mod Authority
pub mod Recovery
pub mod Transaction
pub mod Execution
pub mod Deadline
pub mod Progress
pub mod Transacted
pub mod Effective
pub mod Atomic
pub mod DryRun
pub mod Paced
pub mod Live
pub mod Once
pub mod Returned
