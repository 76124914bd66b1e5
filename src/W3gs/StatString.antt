-- ===== src/W3gs/StatString.antt =====
-- protocol/w3gs/packets.go: the encoding of the string of game settings, in which no byte is zero.
-- Each group of seven bytes stands behind a mask; bit j + 1 of the mask says that byte j was odd,
-- and an even byte is written plus one.
pub mod RoundTrip
use gowarcraft.Prelude.{ℕ, zero, suc, ◌+◌, ◌*◌, ◌/◌, ◌%◌, ◌==◌, [], ◌∷◌, if◌then◌else◌}
use gowarcraft.Protocol.Go.{Bytes}

-- The part of the mask from the weight `w` on, for the next `k` bytes of the group. The bits that
-- the source joins by `|=` are distinct, so they add up.
unfoldable pub mask_from : ℕ → ℕ → Bytes → ℕ
mask_from zero w b = 0
mask_from (suc k) w [] = 0
mask_from (suc k) w (c ∷ b) = (if c % 2 == 0 then 0 else w) + mask_from k (w * 2) b

abbrev pub stat_byte : ℕ → ℕ
stat_byte c = if c % 2 == 0 then c + 1 else c

-- The first argument counts the bytes left in the group.
unfoldable pub encode_stat : ℕ → Bytes → Bytes
encode_stat k [] = []
encode_stat zero (c ∷ b) = (1 + mask_from 7 2 (c ∷ b)) ∷ stat_byte c ∷ encode_stat 6 b
encode_stat (suc k) (c ∷ b) = stat_byte c ∷ encode_stat k b

-- `m` holds the bits of the mask that are still to come, the next one lowest. uint8(c) - 1 wraps.
unfoldable pub decode_stat : ℕ → ℕ → Bytes → Bytes
decode_stat k m [] = []
decode_stat zero m (c ∷ b) = decode_stat 7 (c / 2) b
decode_stat (suc k) m (c ∷ b) =
    (if m % 2 == 0 then (c + 255) % 256 else c) ∷ decode_stat k (m / 2) b
