-- ===== src/Gate.antt =====
-- crates/edge-viewer-gate: the sidecar that authorizes each viewer request from its cookie.
pub mod Revocation
pub mod Verify
pub mod Jwks
pub mod Config
pub mod Boot
