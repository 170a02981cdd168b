-- ===== src/Caddy.antt =====
-- crates/edge-caddy-bridge: what the program configures Caddy to do.
pub mod Routes
pub mod Admin
