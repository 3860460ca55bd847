-- ===== src/Gateway.antt =====
-- services/verify-gateway: the nonce store, the verifier and the routes.
pub mod Types
pub mod NonceStore
pub mod Verifier
pub mod NoirCli
pub mod Verify
pub mod Discovery
pub mod Startup
mod Tests
