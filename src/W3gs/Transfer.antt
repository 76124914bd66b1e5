-- ===== src/W3gs/Transfer.antt =====
-- protocol/w3gs/packets.go: StartDownload, MapState, MapPartOK and MapPartError.
pub mod RoundTrip
pub mod Safety
use gowarcraft.Prelude.{ℕ, ◌+◌, Bool, true, false, length, ◌==◌, not, if◌then◌else◌}
use gowarcraft.Protocol.Go.{Go, ◌>>=◌, ◌>>◌, return, reject_if, get_bytes, invalid_packet_size}
use gowarcraft.Protocol.Go.{unexpected_const}
use gowarcraft.Protocol.Buffer.{read_uint8, read_uint16, read_uint32, read_bed_string}
use gowarcraft.Protocol.Buffer.{write_uint8, write_uint16, write_uint32, write_bed_string}
use gowarcraft.Protocol.Buffer.{write_uint8_at}
use gowarcraft.W3gs.Header.{protocol_sig, read_packet_size, size_ne}
use gowarcraft.W3gs.Pid

pub record StartDownload : Type 0 where
  pub player_id : ℕ

unfoldable pub serialize_start_download : StartDownload → Go (Unit {0})
serialize_start_download pkt = do
  write_uint8 protocol_sig
  write_uint8 Pid.start_download
  write_uint16 9
  write_uint32 1
  write_uint8 pkt.player_id

unfoldable pub deserialize_start_download : Go StartDownload
deserialize_start_download = do
  size ← read_packet_size
  reject_if (size_ne size 9) invalid_packet_size
  constant ← read_uint32
  reject_if (not (constant == 1)) unexpected_const
  player_id ← read_uint8
  return (record { player_id = player_id })

pub record MapState : Type 0 where
  pub ready : Bool
  pub file_size : ℕ

unfoldable pub serialize_map_state : MapState → Go (Unit {0})
serialize_map_state pkt = do
  write_uint8 protocol_sig
  write_uint8 Pid.map_size
  write_uint16 13
  write_uint32 1
  write_uint8 (if pkt.ready then 1 else 3)
  write_uint32 pkt.file_size

unfoldable pub deserialize_map_state : Go MapState
deserialize_map_state = do
  size ← read_packet_size
  reject_if (size_ne size 13) invalid_packet_size
  constant ← read_uint32
  reject_if (not (constant == 1)) unexpected_const
  ready ← read_uint8
  file_size ← read_uint32
  return (record { ready = ready == 1; file_size = file_size })

pub record MapPartOk : Type 0 where
  pub sender_id : ℕ
  pub recipient_id : ℕ
  pub chunk_pos : ℕ

unfoldable pub serialize_map_part_ok : MapPartOk → Go (Unit {0})
serialize_map_part_ok pkt = do
  write_uint8 protocol_sig
  write_uint8 Pid.map_part_ok
  write_uint16 14
  write_uint8 pkt.sender_id
  write_uint8 pkt.recipient_id
  write_uint32 1
  write_uint32 pkt.chunk_pos

unfoldable pub deserialize_map_part_ok : Go MapPartOk
deserialize_map_part_ok = do
  size ← read_packet_size
  reject_if (size_ne size 14) invalid_packet_size
  sender_id ← read_uint8
  recipient_id ← read_uint8
  constant ← read_uint32
  reject_if (not (constant == 1)) unexpected_const
  chunk_pos ← read_uint32
  return (record { sender_id = sender_id; recipient_id = recipient_id; chunk_pos = chunk_pos })

unfoldable pub serialize_map_part_error : Unit {0} → Go (Unit {0})
serialize_map_part_error pkt = do
  write_uint8 protocol_sig
  write_uint8 Pid.map_part_error
  write_uint16 4

unfoldable pub deserialize_map_part_error : Go (Unit {0})
deserialize_map_part_error = do
  size ← read_packet_size
  reject_if (size_ne size 4) invalid_packet_size
  return tt
