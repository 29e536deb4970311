-- ===== src/Auth.antt =====
-- internal/auth: whose request it is.
pub mod Verifier
pub mod Gate
pub mod Jwks
mod Tests
