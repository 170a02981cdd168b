-- ===== src/Sfu.antt =====
-- crates/edge-sfu: sessions with their viewers, the viewers' input, and the source monitor. The
-- objects of mediasoup stand for themselves by their ids.
pub mod RateLimiter
pub mod InputBridge
pub mod Sessions
pub mod Transport
