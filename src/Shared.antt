-- ===== src/Shared.antt =====
-- crates/edge-shared: errors, wire types, token verification and the revocation oracle.
pub mod Errors
pub mod Jwt
pub mod Endpoint
pub mod Revocation
pub mod Types
pub mod Env
