-- ===== src/Notification.antt =====
-- notification-service.
pub mod Event
pub mod Notifier
pub mod Dedup
pub mod Recorder
pub mod DeadLetters
pub mod Consumer
pub mod Agreement
pub mod Counting
pub mod Waits
pub mod Delivery
pub mod Health
