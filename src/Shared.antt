-- ===== src/Shared.antt =====
-- packages/shared/src: errors, and the middleware that decides who a caller is and what it may do.
pub mod Errors
pub mod Rbac
pub mod Auth
pub mod RateLimit
mod Tests
