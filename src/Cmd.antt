-- ===== src/Cmd.antt =====
-- cmd/relay-tunnel: the program's command line.
pub mod Update
pub mod Settings
pub mod Run
