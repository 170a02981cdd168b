-- ===== src/Control.antt =====
-- crates/edge-control: the HTTP API through which sessions are created and torn down.
pub mod Tunnels
pub mod Signalling
pub mod Config
pub mod Startup
pub mod Http
pub mod Router
pub mod Exposure
