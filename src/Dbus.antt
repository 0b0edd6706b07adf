-- ===== src/Dbus.antt =====
-- src/dbus: D-Bus values, messages and the signatures of both.
pub mod Signature
pub mod Value
pub mod Reader
pub mod Writer
pub mod RoundTrip
pub mod NoPanic
pub mod Writable
pub mod Message
mod Tests
