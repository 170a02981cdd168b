-- ===== src/Tests.antt =====
-- The theorems at concrete inputs, by the part of the program that they are about.
mod Rathole
mod Shared
mod Startup
mod Media
mod Gate
mod Sfu
mod Bandwidth
mod Control
mod Caddy
mod Admin
mod Storage
mod Signalling
mod Peers
