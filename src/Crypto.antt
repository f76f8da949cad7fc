-- ===== src/Crypto.antt =====
-- The encrypted transport and the pairing secrets, desktop/src/linkable_desktop/crypto/.
pub mod Channel
pub mod Keys
