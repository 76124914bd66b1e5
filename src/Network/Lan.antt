-- ===== src/Network/Lan.antt =====
-- Package network/lan, over UDP: who hosts a game advertises it, and the others list it.
pub mod Games
pub mod Advertising
pub mod Discovery
mod Examples
