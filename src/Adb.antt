-- ===== src/Adb.antt =====
-- internal/adb: an Android phone, read through the ADB server.
pub mod Watcher
pub mod Sms
pub mod Sims
pub mod Poller
