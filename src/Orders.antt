-- ===== src/Orders.antt =====
-- order-service: the order state machine, its tables and the transactional outbox.
pub mod Status
pub mod Domain
pub mod Database
pub mod Repository
pub mod Atomicity
pub mod History
pub mod Reservation
pub mod Service
pub mod Startup
pub mod Main
pub mod Readiness
pub mod Lifecycle
pub mod Outcomes
pub mod Identity
pub mod Handlers
pub mod Publisher
pub mod Idempotency
pub mod Placing
pub mod Pnl
pub mod Router
pub mod Tracing
pub mod LongIds
