-- ===== src/Gateway.antt =====
-- api-gateway: accounts, credentials, tokens and the identity that it forwards.
pub mod User
pub mod Users
pub mod Auth
pub mod Identity
pub mod Sessions
pub mod Credentials
pub mod Verified
pub mod Tokens
pub mod Forwarding
pub mod Holdings
pub mod Health
pub mod Cors
pub mod RateLimit
pub mod Janitor
pub mod Router
pub mod Chain
pub mod Admission
pub mod Correlation
