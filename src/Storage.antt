-- ===== src/Storage.antt =====
-- What the program keeps on disk: crates/edge-bandwidth/src/persistence.rs,
-- crates/edge-control/src/subdomain_store.rs and crates/edge-rathole-bridge/src/config_writer.rs.
pub mod Files
pub mod Numbers
pub mod Stores
