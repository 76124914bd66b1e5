-- ===== src/W3gs/Action.antt =====
-- protocol/w3gs/packets.go: GameAction, TimeSlotAck and Desync. The IEEE CRC-32 of hash/crc32 is a
-- parameter.
pub mod RoundTrip
pub mod Safety
use gowarcraft.Prelude.{ℕ, ◌+◌, ◌-◌, ◌%◌, ◌^◌, ◌==◌, not, ltb, length}
use gowarcraft.Protocol.Go.{Bytes, Go, ◌>>=◌, ◌>>◌, return, reject_if, get_bytes}
use gowarcraft.Protocol.Go.{invalid_packet_size, invalid_checksum, unexpected_const}
use gowarcraft.Protocol.Buffer.{byte, read_uint8, read_uint32, read_blob, write_uint8, write_uint16}
use gowarcraft.Protocol.Buffer.{write_uint32, write_blob}
use gowarcraft.W3gs.Header.{protocol_sig, read_packet_size, size_ne, size_lt, int_of}
use gowarcraft.W3gs.Pid

pub record GameAction : Type 0 where
  pub content : Bytes

module _ (crc32 : Bytes → ℕ) where
  unfoldable pub serialize_game_action : GameAction → Go (Unit {0})
  serialize_game_action pkt = do
    write_uint8 protocol_sig
    write_uint8 Pid.outgoing_action
    write_uint16 ((8 + length pkt.content) % 2 ^ 16)
    write_uint32 (crc32 pkt.content % 2 ^ 32)
    write_blob pkt.content

  unfoldable pub deserialize_game_action : Go GameAction
  deserialize_game_action = do
    size ← read_packet_size
    reject_if (size_lt size 8) invalid_packet_size
    crc ← read_uint32
    content ← read_blob (int_of size - 8)
    reject_if (not (crc == crc32 content % 2 ^ 32)) invalid_checksum
    return (record { content = content })

pub record TimeSlotAck : Type 0 where
  pub unknown1 : ℕ
  pub checksum : ℕ

unfoldable pub serialize_time_slot_ack : TimeSlotAck → Go (Unit {0})
serialize_time_slot_ack pkt = do
  write_uint8 protocol_sig
  write_uint8 Pid.outgoing_keep_alive
  write_uint16 9
  write_uint8 pkt.unknown1
  write_uint32 pkt.checksum

unfoldable pub deserialize_time_slot_ack : Go TimeSlotAck
deserialize_time_slot_ack = do
  size ← read_packet_size
  reject_if (size_ne size 9) invalid_packet_size
  unknown1 ← read_uint8
  checksum ← read_uint32
  return (record { unknown1 = unknown1; checksum = checksum })

pub record Desync : Type 0 where
  pub unknown1 : ℕ
  pub checksum : ℕ
  pub players_in_state : Bytes

unfoldable pub serialize_desync_content : Desync → Go (Unit {0})
serialize_desync_content pkt = do
  write_uint32 pkt.unknown1
  write_uint8 4
  write_uint32 pkt.checksum
  write_uint8 (byte (length pkt.players_in_state))
  write_blob pkt.players_in_state

unfoldable pub deserialize_desync_content : Go Desync
deserialize_desync_content = do
  unknown1 ← read_uint32
  constant ← read_uint8
  reject_if (not (constant == 4)) unexpected_const
  checksum ← read_uint32
  num_players ← read_uint8
  buf ← get_bytes
  reject_if (ltb (length buf) num_players) invalid_packet_size
  players_in_state ← read_blob num_players
  return (record { unknown1 = unknown1; checksum = checksum; players_in_state = players_in_state })

unfoldable pub serialize_desync : Desync → Go (Unit {0})
serialize_desync pkt = do
  write_uint8 protocol_sig
  write_uint8 Pid.desync
  write_uint16 ((14 + length pkt.players_in_state) % 2 ^ 16)
  serialize_desync_content pkt

unfoldable pub deserialize_desync : Go Desync
deserialize_desync = do
  size ← read_packet_size
  reject_if (size_lt size 14) invalid_packet_size
  pkt ← deserialize_desync_content
  reject_if (size_ne size (14 + length pkt.players_in_state)) invalid_packet_size
  return pkt
