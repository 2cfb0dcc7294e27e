-- ===== src/Relay.antt =====
-- order-service: the outbox relay.
pub mod Batch
pub mod Order
pub mod Loop
pub mod Drain
pub mod Flush
pub mod Run
pub mod Marked
pub mod Delivered
pub mod Requeue
pub mod Replicas
pub mod Backlog
