-- ===== src/Quality.antt =====
-- quality/: the check catalog and its registration.
pub mod Registry
pub mod Predicates
pub mod Statements
pub mod Construction
pub mod Registration
