-- ===== src/W3gs/Peer/RoundTrip.antt =====
-- PeerConnect and PeerSet: Serialize followed by Deserialize.
use gowarcraft.Prelude.{IsU8, IsU16, IsU32, ◌≡◌, [], arith}
use gowarcraft.Protocol.Go.{◌>>=◌, done}
use gowarcraft.W3gs.Header.{header_calls}
use gowarcraft.W3gs.Peer.{
  PeerConnect, serialize_peer_connect, deserialize_peer_connect, PeerSet, serialize_peer_set,
  deserialize_peer_set,
}

pub record ValidPeerConnect (p : PeerConnect) : Type 0 where
  pub join_counter : IsU32 p.join_counter
  pub entry_key : IsU32 p.entry_key
  pub player_id : IsU8 p.player_id
  pub peer_set : IsU32 p.peer_set

-- For a PeerConnect whose numbers fit their fields, Serialize on an empty buffer and then
-- Deserialize returns the same packet and leaves the buffer empty.
pub peer_connect_round_trip :
    (p : PeerConnect)
    → ValidPeerConnect p
    → (serialize_peer_connect p >>= λ _. deserialize_peer_connect) [] ≡ done p []
unfolding serialize_peer_connect deserialize_peer_connect header_calls
peer_connect_round_trip p h = ground arith

pub record ValidPeerSet (p : PeerSet) : Type 0 where
  pub peer_set : IsU16 p.peer_set

pub peer_set_round_trip :
    (p : PeerSet)
    → ValidPeerSet p
    → (serialize_peer_set p >>= λ _. deserialize_peer_set) [] ≡ done p []
unfolding serialize_peer_set deserialize_peer_set header_calls
peer_set_round_trip p h = ground arith
