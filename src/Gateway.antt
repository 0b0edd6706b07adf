-- ===== src/Gateway.antt =====
-- src/gateway.rs: the gateway between a sandbox's private bus and the host bus.
pub mod State
pub mod Forward
pub mod Queue
pub mod Files
pub mod Relay
pub mod Serve
mod Tests
