-- ===== src/Contracts.antt =====
-- packages/contracts: the client of the settlement, escrow, distributor and USDC contracts.
pub mod Types
pub mod Client
pub mod Writes
pub mod Runs
pub mod Samples
mod Tests
