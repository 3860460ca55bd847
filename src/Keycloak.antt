-- ===== src/Keycloak.antt =====
-- packages/auth-client: the client that fetches tokens of the services from Keycloak.
pub mod Types
pub mod Client
pub mod History
pub mod Tokens
mod Tests
