-- ===== src/W3gs/Membership.antt =====
-- protocol/w3gs/packets.go: Leave, PlayerKicked, LeaveAck, PlayerLeft and RejectJoin.
pub mod RoundTrip
pub mod Safety
use gowarcraft.Prelude.{ℕ, ◌+◌, Bool, true, false, length, ◌==◌, not, if◌then◌else◌}
use gowarcraft.Protocol.Go.{Go, ◌>>=◌, ◌>>◌, return, reject_if, get_bytes, invalid_packet_size}
use gowarcraft.Protocol.Go.{unexpected_const}
use gowarcraft.Protocol.Buffer.{read_uint8, read_uint16, read_uint32, read_bed_string}
use gowarcraft.Protocol.Buffer.{write_uint8, write_uint16, write_uint32, write_bed_string}
use gowarcraft.Protocol.Buffer.{write_uint8_at}
use gowarcraft.W3gs.Header.{protocol_sig, read_packet_size, size_ne}
use gowarcraft.W3gs.Pid

pub record Leave : Type 0 where
  pub reason : ℕ

unfoldable pub serialize_leave : Leave → Go (Unit {0})
serialize_leave pkt = do
  write_uint8 protocol_sig
  write_uint8 Pid.leave_req
  write_uint16 8
  write_uint32 pkt.reason

unfoldable pub deserialize_leave : Go Leave
deserialize_leave = do
  size ← read_packet_size
  reject_if (size_ne size 8) invalid_packet_size
  reason ← read_uint32
  return (record { reason = reason })

-- PlayerKicked embeds Leave, and has its Deserialize.
unfoldable pub serialize_player_kicked : Leave → Go (Unit {0})
serialize_player_kicked pkt = do
  start ← get_bytes
  serialize_leave pkt
  write_uint8_at (length start + 1) Pid.player_kicked

unfoldable pub serialize_leave_ack : Unit {0} → Go (Unit {0})
serialize_leave_ack pkt = do write_uint8 protocol_sig; write_uint8 Pid.leave_ack; write_uint16 4

unfoldable pub deserialize_leave_ack : Go (Unit {0})
deserialize_leave_ack = do
  size ← read_packet_size
  reject_if (size_ne size 4) invalid_packet_size
  return tt

pub record PlayerLeft : Type 0 where
  pub player_id : ℕ
  pub reason : ℕ

unfoldable pub serialize_player_left : PlayerLeft → Go (Unit {0})
serialize_player_left pkt = do
  write_uint8 protocol_sig
  write_uint8 Pid.player_left
  write_uint16 9
  write_uint8 pkt.player_id
  write_uint32 pkt.reason

unfoldable pub deserialize_player_left : Go PlayerLeft
deserialize_player_left = do
  size ← read_packet_size
  reject_if (size_ne size 9) invalid_packet_size
  player_id ← read_uint8
  reason ← read_uint32
  return (record { player_id = player_id; reason = reason })

pub record RejectJoin : Type 0 where
  pub reason : ℕ

unfoldable pub serialize_reject_join : RejectJoin → Go (Unit {0})
serialize_reject_join pkt = do
  write_uint8 protocol_sig
  write_uint8 Pid.reject_join
  write_uint16 8
  write_uint32 pkt.reason

unfoldable pub deserialize_reject_join : Go RejectJoin
deserialize_reject_join = do
  size ← read_packet_size
  reject_if (size_ne size 8) invalid_packet_size
  reason ← read_uint32
  return (record { reason = reason })
