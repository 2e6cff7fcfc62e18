-- ===== src/P2p.antt =====
-- internal/p2p/tunnel.go: the UDP tunnel between clients.
pub mod Frame
pub mod State
pub mod Send
pub mod Tunnel
pub mod Punch
mod Examples
