-- ===== src/Planning.antt =====
-- planning/: integrity, compilation, review and admission.
pub mod Payload
pub mod Integrity
pub mod Targets
pub mod Policy
pub mod Compiler
pub mod Review
pub mod Body
pub mod Preparation
pub mod Admission
