-- ===== src/Plan.antt =====
-- src/plan.rs: from a config and the host to what a sandbox is.
pub mod Identity
