-- ===== src/Spec.antt =====
-- src/spec.rs: what a sandbox config may say.
pub mod Names
