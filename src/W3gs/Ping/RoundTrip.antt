-- ===== src/W3gs/Ping/RoundTrip.antt =====
-- Ping, Pong, PeerPing, PeerPong: Serialize followed by Deserialize.
use gowarcraft.Prelude.{IsU32, ◌≡◌, [], arith}
use gowarcraft.Protocol.Go.{◌>>=◌, done}
use gowarcraft.W3gs.Header.{header_calls}
use gowarcraft.W3gs.Ping.{Ping, PeerPing, serialize_ping, deserialize_ping, serialize_pong}
use gowarcraft.W3gs.Ping.{serialize_peer_ping, deserialize_peer_ping, serialize_peer_pong}

pub ping_round_trip :
    (p : Ping) → IsU32 p.payload → (serialize_ping p >>= λ _. deserialize_ping) [] ≡ done p []
unfolding serialize_ping deserialize_ping header_calls
ping_round_trip p h = ground arith

pub pong_round_trip :
    (p : Ping) → IsU32 p.payload → (serialize_pong p >>= λ _. deserialize_ping) [] ≡ done p []
unfolding serialize_pong serialize_ping deserialize_ping header_calls
pong_round_trip p h = ground arith

pub peer_ping_round_trip :
    (p : PeerPing)
    → IsU32 p.payload
    → IsU32 p.peer_set
    → IsU32 p.game_ticks
    → (serialize_peer_ping p >>= λ _. deserialize_peer_ping) [] ≡ done p []
unfolding serialize_peer_ping deserialize_peer_ping header_calls
peer_ping_round_trip p h1 h2 h3 = ground arith

pub peer_pong_round_trip :
    (p : Ping) → IsU32 p.payload → (serialize_peer_pong p >>= λ _. deserialize_ping) [] ≡ done p []
unfolding serialize_peer_pong serialize_ping deserialize_ping header_calls
peer_pong_round_trip p h = ground arith

-- For each Ping, Pong, PeerPing and PeerPong, Serialize on an empty buffer and then Deserialize
-- returns the same packet and leaves the buffer empty, if its numbers fit their fields.
pub ping_round_trips :
    (p : Ping) (q : PeerPing)
    → IsU32 p.payload
    → IsU32 q.payload
    → IsU32 q.peer_set
    → IsU32 q.game_ticks
    → ((serialize_ping p >>= λ _. deserialize_ping) [] ≡ done p [])
      × ((serialize_pong p >>= λ _. deserialize_ping) [] ≡ done p [])
      × ((serialize_peer_ping q >>= λ _. deserialize_peer_ping) [] ≡ done q [])
      × ((serialize_peer_pong p >>= λ _. deserialize_ping) [] ≡ done p [])
ping_round_trips p q h h0 h1 h2 = (
  ping_round_trip p h,
  pong_round_trip p h,
  peer_ping_round_trip q h0 h1 h2,
  peer_pong_round_trip p h,
)
