-- ===== src/Portfolio.antt =====
-- portfolio-service: the ledger of holdings that is projected from executed orders.
pub mod Float
pub mod Position
pub mod Event
pub mod Ledger
pub mod Service
pub mod Projection
pub mod Pricing
pub mod Valuation
pub mod Grpc
pub mod NavCache
pub mod Health
pub mod Interceptors
pub mod Metrics
