-- ===== src/Wireguard.antt =====
-- internal/wireguard: the allocator of tunnel addresses, and the device with its peers.
pub mod Allocator
pub mod Addresses
pub mod Server
mod Tests
