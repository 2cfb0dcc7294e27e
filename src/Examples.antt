-- ===== src/Examples.antt =====
-- Concrete databases, brokers and messages, and the theorems at them.
pub mod Tables
pub mod Accounts
pub mod Keys
pub mod Requests
mod Orders
pub mod Gateway
mod Relay
pub mod Consumer
mod Notification
pub mod Portfolio
mod Money
mod Config
pub mod RateLimit
mod Holdings
pub mod Admission
mod Correlation
