-- ===== src/Input.antt =====
-- The phone's control of the desktop, desktop/src/linkable_desktop/input/.
pub mod Control
