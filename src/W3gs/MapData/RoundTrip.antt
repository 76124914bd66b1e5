-- ===== src/W3gs/MapData/RoundTrip.antt =====
-- MapCheck and MapPart: Serialize followed by Deserialize.
use gowarcraft.Prelude.{true}
use gowarcraft.Prelude.{ℕ, ◌+◌, ◌%◌, ◌^◌, ◌≡◌, [], ◌∷◌, ◌++◌, length, IsU8, IsU16, IsU32, arith}
use gowarcraft.Prelude.{append_assoc, length-append, ap}
use gowarcraft.Protocol.Go.{Bytes, ◌>>=◌, done, and_then}
use gowarcraft.Protocol.Buffer.{buffer_calls, read_blob}
use gowarcraft.Protocol.Buffer.RoundTrip.{le32, read_blob_all, IsCString, read_c_string-append}
use gowarcraft.W3gs.Header.RoundTrip.{
  framed, framed-packet_bytes, packet_bytes, read_packet_size-packet_bytes,
}
use gowarcraft.W3gs.Pid
use gowarcraft.W3gs.MapData.{MapCheck, serialize_map_check, deserialize_map_check, MapPart}
use gowarcraft.W3gs.MapData.{serialize_map_part, deserialize_map_part}

pub record ValidMapCheck (p : MapCheck) : Type 0 where
  pub file_path : IsCString p.file_path
  pub file_size : IsU32 p.file_size
  pub file_crc : IsU32 p.file_crc
  pub map_xoro : IsU32 p.map_xoro
  pub map_sha1 : length p.map_sha1 ≡ 20
  pub fits : IsU16 (41 + length p.file_path)

module _ (p : MapCheck) (h : ValidMapCheck p) where
  check_tail : Bytes
  check_tail = le32 p.file_size (le32 p.file_crc (le32 p.map_xoro p.map_sha1))

  check_body : Bytes
  check_body = le32 1 (p.file_path ++ 0 ∷ check_tail)

  check_bytes : Bytes
  check_bytes = packet_bytes Pid.map_check ((41 + length p.file_path) % 2 ^ 16) check_body

  serialize_map_check-bytes : serialize_map_check p [] ≡ done tt check_bytes
  unfolding serialize_map_check check_bytes check_body check_tail buffer_calls
  serialize_map_check-bytes = simp append_assoc

  length-check_body : 41 + length p.file_path ≡ 4 + length check_body
  unfolding check_body check_tail
  length-check_body = omega (arith, length-append {0} p.file_path (0 ∷ check_tail), h.map_sha1)

  deserialize_map_check-bytes : deserialize_map_check check_bytes ≡ done p []
  unfolding deserialize_map_check check_bytes
  deserialize_map_check-bytes =
      rw
        (read_packet_size-packet_bytes Pid.map_check (41 + length p.file_path) check_body h.fits
          length-check_body)
        (unfold check_body check_tail buffer_calls in
          ground (
            arith,
            read_c_string-append p.file_path check_tail h.file_path,
            ap (λ n. read_blob n p.map_sha1) h.map_sha1,
            read_blob_all p.map_sha1,
          ))

  pub serialize_map_check-framed : framed Pid.map_check (serialize_map_check p []) ≡ true
  unfolding check_bytes
  serialize_map_check-framed = rw serialize_map_check-bytes (
      framed-packet_bytes Pid.map_check (41 + length p.file_path) check_body h.fits
        length-check_body)

  -- For a MapCheck whose numbers fit their fields, whose path has no zero byte, whose SHA-1 has
  -- twenty bytes and whose size fits sixteen bits, Serialize on an empty buffer and then
  -- Deserialize returns the same packet and leaves the buffer empty.
  pub map_check_round_trip : (serialize_map_check p >>= λ _. deserialize_map_check) [] ≡ done p []
  unfolding and_then
  map_check_round_trip = rw serialize_map_check-bytes deserialize_map_check-bytes

pub record ValidMapPart (p : MapPart) : Type 0 where
  pub recipient_id : IsU8 p.recipient_id
  pub sender_id : IsU8 p.sender_id
  pub chunk_pos : IsU32 p.chunk_pos
  pub fits : IsU16 (18 + length p.content)

module _ (crc32 : Bytes → ℕ) (p : MapPart) (h : ValidMapPart p) where
  part_body : Bytes
  part_body =
      p.recipient_id
      ∷ p.sender_id
      ∷ le32 1 (le32 p.chunk_pos (le32 (crc32 p.content % 2 ^ 32) p.content))

  part_bytes : Bytes
  part_bytes = packet_bytes Pid.map_part ((18 + length p.content) % 2 ^ 16) part_body

  serialize_map_part-bytes : serialize_map_part crc32 p [] ≡ done tt part_bytes
  unfolding serialize_map_part part_bytes part_body buffer_calls
  serialize_map_part-bytes = simp append_assoc

  deserialize_map_part-bytes : deserialize_map_part crc32 part_bytes ≡ done p []
  unfolding deserialize_map_part part_bytes
  deserialize_map_part-bytes =
      rw
        (read_packet_size-packet_bytes Pid.map_part (18 + length p.content) part_body h.fits
          (unfold part_body in omega arith))
        (unfold part_body buffer_calls in ground (arith, read_blob_all p.content))

  pub serialize_map_part-framed : framed Pid.map_part (serialize_map_part crc32 p []) ≡ true
  unfolding part_bytes
  serialize_map_part-framed = rw serialize_map_part-bytes (
      framed-packet_bytes Pid.map_part (18 + length p.content) part_body h.fits
        (unfold part_body in omega arith))

  -- For a MapPart whose numbers fit their fields and whose size fits sixteen bits, and for any
  -- checksum function, Serialize on an empty buffer and then Deserialize returns the same packet
  -- and leaves the buffer empty.
  pub map_part_round_trip :
      (serialize_map_part crc32 p >>= λ _. deserialize_map_part crc32) [] ≡ done p []
  unfolding and_then
  map_part_round_trip = rw serialize_map_part-bytes deserialize_map_part-bytes
