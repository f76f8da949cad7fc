-- ===== src/Session.antt =====
-- Proofs of identity in a session's opening, desktop/src/linkable_desktop/session/.
pub mod Auth
