-- ===== src/Lobby.antt =====
-- Package network/lobby: the host of a game.
pub mod Turn
pub mod Acks
pub mod Desync
pub mod Laggers
pub mod Slots
pub mod Changes
pub mod Hosting
pub mod Invariant
pub mod Steps
pub mod Seats
pub mod Locks
pub mod Bounds
mod Examples
