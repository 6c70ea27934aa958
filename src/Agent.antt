-- ===== src/Agent.antt =====
-- agent: what crosses from the untrusted proposer into durable task data.
pub mod Sanitize
