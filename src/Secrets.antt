-- ===== src/Secrets.antt =====
-- The client secrets: the slot table (src/net/net-tcp-rpc-ext-drain.c), its sweeper
-- (src/mtproto/mtproto-proxy.c), and the limits of a secret (src/net/net-tcp-rpc-ext-server.c).
pub mod Slot
pub mod Reload
pub mod Drain
pub mod Bloom
pub mod Track
pub mod Rate
pub mod Gate
mod Tests
