-- ===== src/W3gs/StatString/RoundTrip.antt =====
-- The two loops over the string of game settings, one after the other.
use gowarcraft.Prelude.{ℕ, zero, suc, ◌+◌, ◌-◌, ◌*◌, ◌/◌, ◌≤◌, ◌≡◌, [], ◌∷◌, All, length, arith}
use gowarcraft.Prelude.{refl, IsU8}
use gowarcraft.Protocol.Go.{Bytes}
use gowarcraft.Protocol.Buffer.RoundTrip.{IsCString}
use gowarcraft.W3gs.StatString.{stat_byte, mask_from, encode_stat, decode_stat}

mask_from-double : (k w : ℕ) (b : Bytes) → mask_from k (w * 2) b ≡ mask_from k w b * 2
unfolding mask_from
mask_from-double zero w b = refl
mask_from-double (suc k) w [] = refl
mask_from-double (suc k) w (c ∷ b) = ground (arith, mask_from-double k (w * 2) b)

half_mask : (b : Bytes) → (1 + mask_from 7 2 b) / 2 ≡ mask_from 7 1 b
half_mask b = omega (arith, mask_from-double 7 1 b)

decode_stat-byte :
    (k c : ℕ) (b : Bytes)
    → IsU8 c
    → decode_stat k (mask_from k 1 b) (encode_stat k b) ≡ b
    → decode_stat (suc k) (mask_from (suc k) 1 (c ∷ b)) (stat_byte c ∷ encode_stat k b) ≡ c ∷ b
unfolding decode_stat mask_from
decode_stat-byte k c b h ih = ground (arith, mask_from-double k 1 b)

decode_stat-group :
    (k : ℕ) (b : Bytes) → All IsU8 b → decode_stat k (mask_from k 1 b) (encode_stat k b) ≡ b
unfolding decode_stat encode_stat
decode_stat-group k [] h = refl
decode_stat-group zero (c ∷ b) (h, hs) =
    rw (half_mask (c ∷ b)) (decode_stat-byte 6 c b h (decode_stat-group 6 b hs))
decode_stat-group (suc k) (c ∷ b) (h, hs) = decode_stat-byte k c b h (decode_stat-group k b hs)

-- The encoded string of game settings has no zero byte, wherever in a group of seven bytes the
-- encoding begins.
pub encode_stat-IsCString : (k : ℕ) (b : Bytes) → IsCString (encode_stat k b)
unfolding encode_stat
encode_stat-IsCString zero [] = tt
encode_stat-IsCString (suc k) [] = tt
encode_stat-IsCString zero (c ∷ b) = (omega arith, (ground arith, encode_stat-IsCString 6 b))
encode_stat-IsCString (suc k) (c ∷ b) = (ground arith, encode_stat-IsCString k b)

-- A mask for each group that is begun.
length-encode_stat_from :
    (k : ℕ) (b : Bytes) → k ≤ 7 → length (encode_stat k b) ≡ length b + (length b + 6 - k) / 7
unfolding encode_stat
length-encode_stat_from k [] h = omega arith
length-encode_stat_from zero (c ∷ b) h = omega (arith, length-encode_stat_from 6 b (omega arith))
length-encode_stat_from (suc k) (c ∷ b) h = omega (arith, length-encode_stat_from k b (omega arith))

pub length-encode_stat : (b : Bytes) → length (encode_stat 0 b) ≡ length b + (length b + 6) / 7
length-encode_stat b = omega (arith, length-encode_stat_from 0 b (omega arith))

-- Decoding the encoded string of game settings gives back the bytes that were encoded, whatever
-- bytes they are.
pub decode_stat-encode_stat : (b : Bytes) → All IsU8 b → decode_stat 0 0 (encode_stat 0 b) ≡ b
unfolding decode_stat encode_stat mask_from
decode_stat-encode_stat [] h = refl
decode_stat-encode_stat (c ∷ b) h = decode_stat-group 0 (c ∷ b) h
