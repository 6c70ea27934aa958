-- ===== src/Evals.antt =====
-- evals/: the deterministic gates on a candidate proposal and on a compiled plan.
pub mod Scores
pub mod Candidate
pub mod Plan
