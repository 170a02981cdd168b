-- ===== src/Rathole.antt =====
-- crates/edge-rathole-bridge: upstream ports, the rathole configuration file and its services.
pub mod PortAllocator
pub mod Services
pub mod Config
pub mod Reload
