-- ===== src/Traces.antt =====
-- traces/: the audit-lineage events and their lookup.
pub mod Payload
pub mod Lineage
