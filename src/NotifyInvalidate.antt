-- ===== src/NotifyInvalidate.antt =====
-- src/notify_invalidate: host events become notifications to the guest.
pub mod Notifier
pub mod Translate
pub mod Watcher
pub mod Frame
pub mod Tests
