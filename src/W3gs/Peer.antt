-- ===== src/W3gs/Peer.antt =====
-- protocol/w3gs/packets.go: PeerConnect and PeerSet.
pub mod RoundTrip
pub mod Safety
use gowarcraft.Prelude.{ℕ, ◌+◌, Bool, true, false, length, ◌==◌, not, if◌then◌else◌}
use gowarcraft.Protocol.Go.{Go, ◌>>=◌, ◌>>◌, return, reject_if, get_bytes, invalid_packet_size}
use gowarcraft.Protocol.Go.{unexpected_const}
use gowarcraft.Protocol.Buffer.{read_uint8, read_uint16, read_uint32, read_bed_string}
use gowarcraft.Protocol.Buffer.{write_uint8, write_uint16, write_uint32, write_bed_string}
use gowarcraft.Protocol.Buffer.{write_uint8_at}
use gowarcraft.W3gs.Header.{protocol_sig, read_packet_size, size_ne}
use gowarcraft.W3gs.Pid

pub record PeerConnect : Type 0 where
  pub join_counter : ℕ
  pub entry_key : ℕ
  pub player_id : ℕ
  pub peer_set : ℕ

unfoldable pub serialize_peer_connect : PeerConnect → Go (Unit {0})
serialize_peer_connect pkt = do
  write_uint8 protocol_sig
  write_uint8 Pid.client_info
  write_uint16 18
  write_uint32 pkt.join_counter
  write_uint32 pkt.entry_key
  write_uint8 pkt.player_id
  write_uint8 0xFF
  write_uint32 pkt.peer_set

unfoldable pub deserialize_peer_connect : Go PeerConnect
deserialize_peer_connect = do
  size ← read_packet_size
  reject_if (size_ne size 18) invalid_packet_size
  join_counter ← read_uint32
  entry_key ← read_uint32
  player_id ← read_uint8
  constant ← read_uint8
  reject_if (not (constant == 0xFF)) unexpected_const
  peer_set ← read_uint32
  return (record {
    join_counter = join_counter;
    entry_key = entry_key;
    player_id = player_id;
    peer_set = peer_set;
  })

pub record PeerSet : Type 0 where
  pub peer_set : ℕ

unfoldable pub serialize_peer_set : PeerSet → Go (Unit {0})
serialize_peer_set pkt = do
  write_uint8 protocol_sig
  write_uint8 Pid.peer_set
  write_uint16 6
  write_uint16 pkt.peer_set

unfoldable pub deserialize_peer_set : Go PeerSet
deserialize_peer_set = do
  size ← read_packet_size
  reject_if (size_ne size 6) invalid_packet_size
  peer_set ← read_uint16
  return (record { peer_set = peer_set })
