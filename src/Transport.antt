-- ===== src/Transport.antt =====
-- The envelope transport, desktop/src/linkable_desktop/transport/.
pub mod Stream
pub mod Framing
