-- ===== src/Caddy/Admin.antt =====
-- crates/edge-caddy-bridge/src/admin_client.rs. Caddy answers the requests of the client by
-- `exchange`, a parameter: how its state goes on, and the response, or none when the connection
-- fails. An error keeps the constant part of its message.
pub mod Requests
pub mod Client
pub mod Verified
pub mod Effects
pub mod Bounds
pub mod View
pub mod Sweep
pub mod Upsert
pub mod Policies
pub mod Wildcard
pub mod Overlaps
pub mod Stale
