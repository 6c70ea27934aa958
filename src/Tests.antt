-- ===== src/Tests.antt =====
-- One small run of the pipeline, and the theorems applied to it.
mod Samples
mod Store
mod Runs
mod Stages
mod Applied
mod Application
mod Rendered
mod Executions
mod Prepared
mod Constructed
mod Witnesses
mod Approved
mod Decisions
mod Registrations
