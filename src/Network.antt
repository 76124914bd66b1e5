-- ===== src/Network.antt =====
-- Package network: the events of a connection, the games of the local network, and the connections
-- between the players of a game.
pub mod Events
pub mod Lan
pub mod Peers
