-- ===== src/Desktop.antt =====
-- Desktop entries: src/desktop.rs.
pub mod Exec
pub mod Entry
pub mod Rewrite
pub mod Tests
