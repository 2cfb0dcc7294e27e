-- ===== src/Config.antt =====
-- The configuration of the four services, read from the environment.
pub mod Env
pub mod Portfolio
pub mod Notification
pub mod Order
pub mod Gateway
pub mod Accepted
pub mod Outbox
