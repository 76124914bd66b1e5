-- ===== src/Replays/Header/RoundTrip.antt =====
-- The header that Close writes, and DecodeHeader on it.
use gowarcraft.Prelude.{
  ℕ, ltb, ◌+◌, ◌-◌, ◌≤◌, take, drop, ◌%◌, ◌^◌, ◌≡◌, ◌<◌, [], ◌∷◌, ◌++◌, length, arith, refl, ap,
  ◌∙◌, IsU16, IsU32, false,
}
use gowarcraft.Protocol.Go.{Bytes, done}
use gowarcraft.Protocol.Buffer.{
  split_at_zero, read_c_string, reverse_bytes32, buffer_calls, write_uint32_at,
}
use gowarcraft.Protocol.Buffer.RoundTrip.{le16, le32}
use gowarcraft.W3gs.GameInfo.{serialize_game_version}
use gowarcraft.W3gs.GameInfo.RoundTrip.{read_version}
use gowarcraft.Network.Events.{same}
use gowarcraft.Replays.Header.{
  Header, Sizes, signature, player_flag, write_fields, write_header, decode_header, opened,
  read_prefix, after_prefix, after_signature, read_by_version, check_header, after_fields,
  read_fields1, read_tail, Fields,
}

pub record ValidHeader (e : Header) (z : Sizes) : Type 0 where
  pub product : IsU32 e.game_version.product
  pub version : IsU32 e.game_version.version
  pub build_number : IsU16 e.build_number
  pub duration_ms : IsU32 e.duration_ms
  pub size_written : z.size_written + 68 < 2 ^ 32
  pub size_total : IsU32 z.size_total
  pub num_blocks : IsU32 z.num_blocks

read_prefix-le :
    (n : ℕ) (rest : Bytes)
    → n < 2 ^ 32
    → read_prefix (le32 68 (le32 (n % 2 ^ 32) (le32 1 rest))) ≡ done (68, n, 1) rest
unfolding buffer_calls
read_prefix-le n rest h = ground (arith, h)

after_prefix-le :
    (crc32 : Bytes → ℕ) (n : ℕ) (pbuf buf r : Bytes)
    → n < 2 ^ 32
    → after_prefix crc32 (read_prefix (le32 68 (le32 (n % 2 ^ 32) (le32 1 pbuf)))) buf r
      ≡ read_by_version crc32 1 68 n pbuf buf r
after_prefix-le crc32 n pbuf buf r h =
    ap (λ o. after_prefix crc32 o buf r) (read_prefix-le n pbuf h)

first_part :
    (crc32 : Bytes → ℕ) (r : Bytes)
    → ltb (length r) 64 ≡ false
    → decode_header crc32 r
      ≡ after_signature crc32
          (read_c_string (take 64 r ++ 0 ∷ 0 ∷ 0 ∷ 0 ∷ []))
          (take 64 r)
          (drop 64 r)
unfolding decode_header
first_part crc32 r h = rw h refl

next_four :
    (crc32 : Bytes → ℕ) (size_header size_file : ℕ) (pbuf buf r : Bytes)
    → 4 ≤ length r
    → read_by_version crc32 1 size_header size_file pbuf buf r
      ≡ after_fields crc32
          (read_fields1 (take (length pbuf - 4) pbuf ++ take 4 r))
          (check_header crc32 68 size_header size_file (buf ++ take 4 r) (drop 4 r))
next_four crc32 size_header size_file pbuf buf r h = ground (arith, h)

module _ (crc32 : Bytes → ℕ) (e : Header) (z : Sizes) where
  tail_bytes : ℕ → Bytes → Bytes
  tail_bytes crc rest =
      le16 e.build_number (le16 (player_flag e.single_player) (le32 e.duration_ms (le32 crc rest)))

  block_bytes : ℕ → Bytes → Bytes
  block_bytes crc rest = le32 z.size_total (
      le32 z.num_blocks (
        le32 (reverse_bytes32 e.game_version.product)
          (le32 e.game_version.version (tail_bytes crc rest))))

  fields_bytes : ℕ → Bytes → Bytes
  fields_bytes crc rest =
      signature
      ++ 0 ∷ le32 68 (le32 ((z.size_written + 68) % 2 ^ 32) (le32 1 (block_bytes crc rest)))

  write_fields-bytes : write_fields e z [] ≡ done tt (fields_bytes 0 [])
  unfolding serialize_game_version fields_bytes block_bytes tail_bytes buffer_calls
  write_fields-bytes = refl

  header_crc : ℕ
  header_crc = crc32 (fields_bytes 0 []) % 2 ^ 32

  header_crc-IsU32 : IsU32 header_crc
  unfolding header_crc
  header_crc-IsU32 = omega arith

  write_header-bytes : write_header crc32 e z [] ≡ done tt (fields_bytes header_crc [])
  unfolding write_header serialize_game_version fields_bytes block_bytes tail_bytes header_crc
      write_uint32_at buffer_calls
  write_header-bytes = refl

  fields : ℕ → Fields
  fields crc = record {
    header = e;
    num_blocks = z.num_blocks;
    size_blocks = z.size_total;
    crc = crc;
  }

  module _ (h : ValidHeader e z) where
    read_tail-bytes :
        (crc : ℕ)
        → IsU32 crc
        → read_tail z.size_total z.num_blocks e.game_version (tail_bytes crc [])
          ≡ done (fields crc) []
    unfolding tail_bytes fields buffer_calls
    read_tail-bytes crc hc = ground (arith, h.build_number, h.duration_ms, hc)

    read_fields1-bytes :
        (crc : ℕ) → IsU32 crc → read_fields1 (block_bytes crc []) ≡ done (fields crc) []
    unfolding block_bytes buffer_calls
    read_fields1-bytes crc hc = ground (
      arith,
      h.size_total,
      h.num_blocks,
      read_version e.game_version (tail_bytes crc []) h.product h.version,
      read_tail-bytes crc hc,
    )

    checked :
        (rest : Bytes)
        → check_header crc32 68 68
            (z.size_written + 68)
            (fields_bytes header_crc [])
            rest
            (fields header_crc)
          ≡ opened e z.num_blocks z.size_total 68 rest
    unfolding fields_bytes block_bytes tail_bytes fields header_crc buffer_calls
    checked rest = ground arith

    versioned :
        (rest : Bytes)
        → read_by_version crc32 1 68
            (z.size_written + 68)
            (block_bytes 0 [])
            (take 64 (fields_bytes header_crc []))
            (le32 header_crc rest)
          ≡ check_header crc32 68 68
              (z.size_written + 68)
              (fields_bytes header_crc [])
              rest
              (fields header_crc)
    unfolding fields_bytes block_bytes tail_bytes buffer_calls
    versioned rest =
        next_four crc32 68 (z.size_written + 68) (block_bytes 0 [])
          (take 64 (fields_bytes header_crc [])) (le32 header_crc rest) (omega arith)
        ∙ ap
            (λ o.
              after_fields crc32 o
                (check_header crc32 68 68 (z.size_written + 68) (fields_bytes header_crc []) rest))
            (read_fields1-bytes header_crc header_crc-IsU32)

    decode_header-bytes :
        (rest : Bytes)
        → decode_header crc32 (fields_bytes header_crc rest)
          ≡ opened e z.num_blocks z.size_total 68 rest
    unfolding fields_bytes block_bytes tail_bytes buffer_calls read_c_string split_at_zero same
    decode_header-bytes rest =
        first_part crc32 (fields_bytes header_crc rest) (ground arith)
        ∙ after_prefix-le crc32 (z.size_written + 68) (block_bytes 0 [])
            (take 64 (fields_bytes header_crc [])) (le32 header_crc rest) h.size_written
        ∙ versioned rest
        ∙ checked rest

-- Close writes a header of 68 bytes, for a version, a build number, a duration and counts of
-- bytes and blocks that fit in their fields, and DecodeHeader reads it back from the start of a
-- stream: it gives the same header and counts and leaves the rest of the stream, whatever
-- follows.
pub decode_header-write_header :
    (crc32 : Bytes → ℕ) (e : Header) (z : Sizes)
    → ValidHeader e z
    → (written : Bytes) × (write_header crc32 e z [] ≡ done tt written)
      × (length written ≡ 68)
      × ((rest : Bytes)
          → decode_header crc32 (written ++ rest) ≡ opened e z.num_blocks z.size_total 68 rest)
unfolding fields_bytes block_bytes tail_bytes
decode_header-write_header crc32 e z h = (
  fields_bytes crc32 e z (header_crc crc32 e z) [],
  write_header-bytes crc32 e z,
  refl,
  decode_header-bytes crc32 e z h,
)
