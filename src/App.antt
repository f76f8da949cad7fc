-- ===== src/App.antt =====
-- The desktop application's own state, desktop/src/linkable_desktop/app/.
pub mod Devices
pub mod Clipboard
pub mod CallHistory
pub mod Sessions
pub mod DeviceSettings
pub mod SafeWifi
pub mod Notifications
pub mod Requests
