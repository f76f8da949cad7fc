-- ===== src/Examples.antt =====
-- Concrete inputs, and the theorems at them.
mod Fixtures
mod Transport
mod Crypto
mod Transfer
mod Session
mod Pairing
mod Handshake
mod Devices
mod Endpoint
mod Outgoing
mod Serving
mod Input
mod Histories
mod Settings
mod Notifications
