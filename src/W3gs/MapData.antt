-- ===== src/W3gs/MapData.antt =====
-- protocol/w3gs/packets.go: MapCheck and MapPart. The IEEE CRC-32 of hash/crc32 is a parameter.
pub mod RoundTrip
pub mod Safety
use gowarcraft.Prelude.{ℕ, ◌+◌, ◌-◌, ◌%◌, ◌^◌, ◌==◌, not, length}
use gowarcraft.Protocol.Go.{Bytes, Go, ◌>>=◌, ◌>>◌, return, reject_if}
use gowarcraft.Protocol.Go.{invalid_packet_size, invalid_checksum, unexpected_const}
use gowarcraft.Protocol.Buffer.{read_uint8, read_uint32, read_blob, read_c_string, write_uint8}
use gowarcraft.Protocol.Buffer.{write_uint16, write_uint32, write_blob, write_c_string}
use gowarcraft.W3gs.Header.{protocol_sig, read_packet_size, size_ne, size_lt, int_of}
use gowarcraft.W3gs.Pid

-- `map_sha1` is an array of twenty bytes.
pub record MapCheck : Type 0 where
  pub file_path : Bytes
  pub file_size : ℕ
  pub file_crc : ℕ
  pub map_xoro : ℕ
  pub map_sha1 : Bytes

unfoldable pub serialize_map_check : MapCheck → Go (Unit {0})
serialize_map_check pkt = do
  write_uint8 protocol_sig
  write_uint8 Pid.map_check
  write_uint16 ((41 + length pkt.file_path) % 2 ^ 16)
  write_uint32 1
  write_c_string pkt.file_path
  write_uint32 pkt.file_size
  write_uint32 pkt.file_crc
  write_uint32 pkt.map_xoro
  write_blob pkt.map_sha1

unfoldable pub deserialize_map_check : Go MapCheck
deserialize_map_check = do
  size ← read_packet_size
  reject_if (size_lt size 41) invalid_packet_size
  constant ← read_uint32
  reject_if (not (constant == 1)) unexpected_const
  file_path ← read_c_string
  reject_if (size_ne size (41 + length file_path)) invalid_packet_size
  file_size ← read_uint32
  file_crc ← read_uint32
  map_xoro ← read_uint32
  map_sha1 ← read_blob 20
  return (record {
    file_path = file_path;
    file_size = file_size;
    file_crc = file_crc;
    map_xoro = map_xoro;
    map_sha1 = map_sha1;
  })

pub record MapPart : Type 0 where
  pub recipient_id : ℕ
  pub sender_id : ℕ
  pub chunk_pos : ℕ
  pub content : Bytes

module _ (crc32 : Bytes → ℕ) where
  unfoldable pub serialize_map_part : MapPart → Go (Unit {0})
  serialize_map_part pkt = do
    write_uint8 protocol_sig
    write_uint8 Pid.map_part
    write_uint16 ((18 + length pkt.content) % 2 ^ 16)
    write_uint8 pkt.recipient_id
    write_uint8 pkt.sender_id
    write_uint32 1
    write_uint32 pkt.chunk_pos
    write_uint32 (crc32 pkt.content % 2 ^ 32)
    write_blob pkt.content

  unfoldable pub deserialize_map_part : Go MapPart
  deserialize_map_part = do
    size ← read_packet_size
    reject_if (size_lt size 18) invalid_packet_size
    recipient_id ← read_uint8
    sender_id ← read_uint8
    constant ← read_uint32
    reject_if (not (constant == 1)) unexpected_const
    chunk_pos ← read_uint32
    crc ← read_uint32
    content ← read_blob (int_of size - 18)
    reject_if (not (crc == crc32 content % 2 ^ 32)) invalid_checksum
    return (record {
      recipient_id = recipient_id;
      sender_id = sender_id;
      chunk_pos = chunk_pos;
      content = content;
    })
