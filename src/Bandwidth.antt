-- ===== src/Bandwidth.antt =====
-- crates/edge-bandwidth, and the callback client through which it reports, crates/edge-callback-client.
pub mod Callback
pub mod Reporter
