-- ===== src/Pairing.antt =====
-- Pairing, desktop/src/linkable_desktop/pairing/: the code that both ends show, the registry of
-- the one active session, and the server's handlers.
pub mod Registry
pub mod Code
pub mod Server
pub mod Session
pub mod Transport
pub mod Outgoing
