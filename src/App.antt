-- ===== src/App.antt =====
-- internal/app: what runs on top of a tunnel.
pub mod Host
pub mod Client
pub mod Manager
pub mod Socks
