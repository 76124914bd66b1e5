-- ===== src/W3gs/Extra/RoundTrip.antt =====
-- PlayerExtra: Serialize followed by Deserialize.
use gowarcraft.Prelude.{
  ℕ, ◌+◌, ◌%◌, ◌^◌, ◌≡◌, ◌||◌, ◌&&◌, Bool, true, false, [], ◌∷◌, length, IsU8, IsU16, arith,
}
use gowarcraft.Protocol.Go.{Bytes, ◌>>=◌, done, and_then}
use gowarcraft.Protocol.Buffer.{buffer_calls}
use gowarcraft.Protocol.Buffer.RoundTrip.{le32, read_blob_all}
use gowarcraft.W3gs.Header.RoundTrip.{
  framed, framed-packet_bytes, packet_bytes, read_packet_size-packet_bytes,
}
use gowarcraft.W3gs.Pid
use gowarcraft.W3gs.Extra.{
  PlayerExtra, is_decoded, serialize_player_extra, read_extra, deserialize_player_extra,
}

abbrev pub no_bytes : Bytes → Bool
no_bytes [] = true
no_bytes (b ∷ bs) = false

pub record ValidPlayerExtra (decodes : ℕ → Bytes → Bool) (p : PlayerExtra) : Type 0 where
  pub type : IsU8 p.type
  pub decoded : (no_bytes p.raw || is_decoded p.type && decodes p.type p.raw) ≡ true
  pub fits : IsU16 (9 + length p.raw)

module _ (decodes : ℕ → Bytes → Bool) (p : PlayerExtra) (h : ValidPlayerExtra decodes p) where
  extra_body : Bytes
  extra_body = p.type ∷ le32 (length p.raw % 2 ^ 32) p.raw

  extra_bytes : Bytes
  extra_bytes = packet_bytes Pid.player_extra ((9 + length p.raw) % 2 ^ 16) extra_body

  serialize_player_extra-bytes : serialize_player_extra p [] ≡ done tt extra_bytes
  unfolding serialize_player_extra extra_bytes extra_body buffer_calls
  serialize_player_extra-bytes = ground (arith, h.type)

  deserialize_player_extra-bytes : deserialize_player_extra decodes extra_bytes ≡ done p []
  unfolding deserialize_player_extra extra_bytes and_then
  deserialize_player_extra-bytes =
      rw
        (read_packet_size-packet_bytes Pid.player_extra (9 + length p.raw) extra_body h.fits
          (unfold extra_body in omega arith))
        (unfold extra_body read_extra buffer_calls in
          ground (arith, read_blob_all p.raw, h.decoded, h.fits, h.type))

  -- For a PlayerExtra whose size fits sixteen bits, and whose content is empty or of a type with a
  -- content that the protobuf library decodes, Serialize on an empty buffer and then Deserialize
  -- returns the same packet and leaves the buffer empty.
  pub player_extra_round_trip :
      (serialize_player_extra p >>= λ _. deserialize_player_extra decodes) [] ≡ done p []
  unfolding and_then
  player_extra_round_trip = rw serialize_player_extra-bytes deserialize_player_extra-bytes

  pub serialize_player_extra-framed : framed Pid.player_extra (serialize_player_extra p []) ≡ true
  unfolding extra_bytes
  serialize_player_extra-framed = rw serialize_player_extra-bytes (
      framed-packet_bytes Pid.player_extra (9 + length p.raw) extra_body h.fits
        (unfold extra_body in omega arith))
