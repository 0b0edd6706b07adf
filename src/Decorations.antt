-- ===== src/Decorations.antt =====
-- src/decorations/: the proxy that xwayland-satellite talks to in place of the compositor.
pub mod Wire
pub mod Socket
pub mod Scale
