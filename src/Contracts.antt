-- ===== src/Contracts.antt =====
-- contracts/: the governed artifacts that cross between the parts of the program. Field constraints
-- that pydantic enforces when an artifact is built are not repeated in the records.
pub mod Value
pub mod Tables
pub mod Report
pub mod Remediations
pub mod Plan
pub mod Evaluation
pub mod Decision
