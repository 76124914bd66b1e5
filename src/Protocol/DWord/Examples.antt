-- ===== src/Protocol/DWord/Examples.antt =====
-- The tag of The Frozen Throne.
use gowarcraft.Prelude.{ℕ, ◌^◌, ◌≡◌, ◌<◌, true, length, ◌≤◌, [], ◌∷◌, arith}
use gowarcraft.Protocol.Go.{Bytes}
use gowarcraft.Protocol.DWord.{
  parsed, invalid_d_string, ends_nonzero, unmarshal_text, to_string, unmarshal_text-to_string,
}

abbrev w3xp : Bytes
w3xp = 87 ∷ 51 ∷ 88 ∷ 80 ∷ []

unmarshal_text-to_string_example :
    (4 < length w3xp → unmarshal_text w3xp ≡ invalid_d_string)
    × (length w3xp ≤ 4
        → (s : ℕ) × (unmarshal_text w3xp ≡ parsed s)
          × (s < 2 ^ 32)
          × (unmarshal_text (to_string s) ≡ parsed s)
          × (ends_nonzero w3xp ≡ true → to_string s ≡ w3xp))
unmarshal_text-to_string_example =
    unmarshal_text-to_string w3xp (omega arith, (omega arith, (omega arith, (omega arith, tt))))
