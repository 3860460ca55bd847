-- ===== src/Metering.antt =====
-- services/metering-billing: usage records, settlement statements, and their way onto the chain.
pub mod Types
pub mod Usage
pub mod Statement
pub mod Summary
pub mod Settlement
pub mod Service
pub mod Chain
pub mod Startup
