-- ===== src/Dpp.antt =====
-- services/dpp-builder: products, their verified predicates, and the views of a product passport.
pub mod Types
pub mod Database
pub mod Composer
pub mod Routes
pub mod Startup
mod Tests
