-- ===== src/Fleet.antt =====
-- internal/fleet: the coordination of downloads between the nodes of a LAN.
pub mod Message
pub mod State
pub mod Coordinator
pub mod Query
pub mod Node
mod Examples
