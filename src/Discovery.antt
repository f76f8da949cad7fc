-- ===== src/Discovery.antt =====
-- Finding phones on the network, desktop/src/linkable_desktop/discovery/.
pub mod Endpoint
