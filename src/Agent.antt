-- ===== src/Agent.antt =====
-- internal/agent/agent.go: the client, which joins rooms, keeps the routes to their members, and
-- moves packets between the virtual adapter and the tunnel.
pub mod State
pub mod Rooms
pub mod Routes
pub mod Members
pub mod Forward
pub mod Loop
mod Examples
