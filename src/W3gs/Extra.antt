-- ===== src/W3gs/Extra.antt =====
-- protocol/w3gs/packets.go: PlayerExtra. The profiles, skins and other parts are bytes here, as the
-- protobuf library encodes them; whether it decodes such bytes again, for a type, is a parameter.
pub mod RoundTrip
use gowarcraft.Prelude.{
  ℕ, ◌+◌, ◌-◌, ◌%◌, ◌^◌, ◌==◌, ◌||◌, not, Bool, ltb, length, [], if◌then◌else◌,
}
use gowarcraft.Protocol.Go.{
  Bytes, Go, ◌>>=◌, ◌>>◌, return, reject_if, get_bytes, invalid_packet_size, unexpected_const,
  short_buffer, not_decoded,
}
use gowarcraft.Protocol.Buffer.{
  read_uint8, read_uint32, read_blob, write_uint8, write_uint16, write_uint32, write_blob,
  write_uint16_at,
}
use gowarcraft.W3gs.Header.{protocol_sig, read_packet_size, size_ne, size_lt}
use gowarcraft.W3gs.Pid

pub record PlayerExtra : Type 0 where
  pub type : ℕ
  pub raw : Bytes

-- PlayerProfile, PlayerSkins and PlayerExtra5
abbrev pub is_decoded : ℕ → Bool
is_decoded type = type == 3 || type == 4 || type == 5

abbrev pub write_extra : PlayerExtra → Go (Unit {0})
write_extra pkt = do
  write_uint8 pkt.type
  write_uint32 (length pkt.raw % 2 ^ 32)
  write_blob pkt.raw

unfoldable pub serialize_player_extra : PlayerExtra → Go (Unit {0})
serialize_player_extra pkt = do
  start ← get_bytes
  write_uint8 protocol_sig
  write_uint8 Pid.player_extra
  write_uint16 0
  write_extra pkt
  buf ← get_bytes
  write_uint16_at (length start + 2) ((length buf - length start) % 2 ^ 16)

module _ (decodes : ℕ → Bytes → Bool) where
  abbrev pub decode_extra : ℕ → ℕ → Go PlayerExtra
  decode_extra type size = do
    buf ← get_bytes
    reject_if (ltb (length buf) size) short_buffer
    raw ← read_blob size
    reject_if (not (is_decoded type)) unexpected_const
    reject_if (not (decodes type raw)) not_decoded
    return (record { type = type; raw = raw })

  unfoldable pub read_extra : Go PlayerExtra
  read_extra = do
    buf ← get_bytes
    reject_if (ltb (length buf) 5) short_buffer
    type ← read_uint8
    size ← read_uint32
    if size == 0 then return (record { type = type; raw = [] }) else decode_extra type size

  unfoldable pub deserialize_player_extra : Go PlayerExtra
  deserialize_player_extra = do
    start ← get_bytes
    size ← read_packet_size
    reject_if (size_lt size 6) invalid_packet_size
    pkt ← read_extra
    buf ← get_bytes
    reject_if (size_ne size (length start - length buf)) invalid_packet_size
    return pkt
