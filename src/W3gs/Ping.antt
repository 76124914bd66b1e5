-- ===== src/W3gs/Ping.antt =====
-- protocol/w3gs: Ping, Pong, PeerPing and PeerPong.
pub mod RoundTrip
pub mod Safety
use gowarcraft.Prelude.{ℕ, ◌+◌, length}
use gowarcraft.Protocol.Go.{Go, ◌>>=◌, ◌>>◌, return, reject_if, get_bytes, invalid_packet_size}
use gowarcraft.Protocol.Buffer.{read_uint32, write_uint8, write_uint16, write_uint32}
use gowarcraft.Protocol.Buffer.{write_uint8_at}
use gowarcraft.W3gs.Header.{protocol_sig, read_packet_size, size_ne}
use gowarcraft.W3gs.Pid

pub record Ping : Type 0 where
  pub payload : ℕ

unfoldable pub serialize_ping : Ping → Go (Unit {0})
serialize_ping pkt = do
  write_uint8 protocol_sig
  write_uint8 Pid.ping_from_host
  write_uint16 8
  write_uint32 pkt.payload

unfoldable pub deserialize_ping : Go Ping
deserialize_ping = do
  size ← read_packet_size
  reject_if (size_ne size 8) invalid_packet_size
  payload ← read_uint32
  return (record { payload = payload })

-- Pong embeds Ping, and has its Deserialize.
unfoldable pub serialize_pong : Ping → Go (Unit {0})
serialize_pong pkt = do
  start ← get_bytes
  serialize_ping pkt
  write_uint8_at (length start + 1) Pid.pong_to_host

pub record PeerPing : Type 0 where
  pub payload : ℕ
  pub peer_set : ℕ
  pub game_ticks : ℕ

unfoldable pub serialize_peer_ping : PeerPing → Go (Unit {0})
serialize_peer_ping pkt = do
  write_uint8 protocol_sig
  write_uint8 Pid.ping_from_others
  write_uint16 16
  write_uint32 pkt.payload
  write_uint32 pkt.peer_set
  write_uint32 pkt.game_ticks

unfoldable pub deserialize_peer_ping : Go PeerPing
deserialize_peer_ping = do
  size ← read_packet_size
  reject_if (size_ne size 16) invalid_packet_size
  payload ← read_uint32
  peer_set ← read_uint32
  game_ticks ← read_uint32
  return (record { payload = payload; peer_set = peer_set; game_ticks = game_ticks })

-- PeerPong embeds Ping, and has its Deserialize.
unfoldable pub serialize_peer_pong : Ping → Go (Unit {0})
serialize_peer_pong pkt = do
  start ← get_bytes
  serialize_ping pkt
  write_uint8_at (length start + 1) Pid.pong_to_others
