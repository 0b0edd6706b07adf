-- ===== src/Portal.antt =====
-- src/portal.rs: what the gateway forwards to the host, and how forwarded messages are rewritten.
pub mod Names
pub mod Services
pub mod Arguments
pub mod Policy
pub mod Paths
pub mod Uri
mod Tests
