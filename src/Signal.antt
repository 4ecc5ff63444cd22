-- ===== src/Signal.antt =====
-- internal/signal: the rendezvous server.
pub mod State
pub mod Udp
pub mod Pairing
pub mod Admin
pub mod Api
pub mod Step
pub mod Invariant
pub mod Safety
pub mod Dial
pub mod Names
pub mod Routing
