-- ===== src/W3gs.antt =====
-- Package protocol/w3gs: the packets of the game protocol.
pub mod Pid
pub mod Header
pub mod Ping
pub mod Membership
pub mod Loading
pub mod Listing
pub mod Peer
pub mod Transfer
pub mod Join
pub mod Lag
pub mod Action
pub mod Chat
pub mod MapData
pub mod TimeSlot
pub mod Slots
pub mod StatString
pub mod GameInfo
pub mod Guards
pub mod Extra
pub mod Packets
pub mod Codec
mod Examples
