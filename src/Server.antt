-- ===== src/Server.antt =====
-- internal/server: the coordination server, from its registry to its handler and its relay.
pub mod State
pub mod Rooms
pub mod Registry
pub mod Relay
pub mod Handler
mod Examples
