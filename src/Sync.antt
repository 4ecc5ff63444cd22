-- ===== src/Sync.antt =====
-- examples/relay-sync: one-way synchronisation of directories over a tunnel.
pub mod Files
pub mod Plan
pub mod Pass
pub mod Host
pub mod Frame
pub mod Ignore
pub mod Walk
pub mod Command
pub mod Retry
pub mod Exchange
