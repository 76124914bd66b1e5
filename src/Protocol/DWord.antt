-- ===== src/Protocol/DWord.antt =====
-- protocol/dwordstring.go: strings of at most four characters in a number of 32 bits.
mod Examples
use gowarcraft.Prelude.{
  ℕ, ◌+◌, ◌*◌, ◌/◌, ◌^◌, ◌==◌, ◌≡◌, ◌<◌, ◌≤◌, ltb, not, All, Bool, true, Option, some, none,
  if◌then◌else◌, [], ◌∷◌, length, arith, refl,
}
use gowarcraft.Protocol.Go.{Bytes, IsByte}
use gowarcraft.Protocol.Buffer.{byte}

-- DString; none is its panic. The bytes are put together without overlap, so that | is +.
unfoldable pub d_string : Bytes → Option ℕ
d_string [] = some 0
d_string (a ∷ []) = some a
d_string (a ∷ b ∷ []) = some (a + b * 2 ^ 8)
d_string (a ∷ b ∷ c ∷ []) = some (a + b * 2 ^ 8 + c * 2 ^ 16)
d_string (a ∷ b ∷ c ∷ d ∷ []) = some (a + b * 2 ^ 8 + c * 2 ^ 16 + d * 2 ^ 24)
d_string (a ∷ b ∷ c ∷ d ∷ e ∷ s) = none

-- String: a mask of the highest byte, of the next one, and so on.
unfoldable pub to_string : ℕ → Bytes
to_string s =
    let b1 = byte s in
    let b2 = byte (s / 2 ^ 8) in
    let b3 = byte (s / 2 ^ 16) in
    let b4 = byte (s / 2 ^ 24) in
    if s == 0
    then []
    else (if b4 == 0
        then (if b3 == 0 then (if b2 == 0 then b1 ∷ [] else b1 ∷ b2 ∷ []) else b1 ∷ b2 ∷ b3 ∷ [])
        else b1 ∷ b2 ∷ b3 ∷ b4 ∷ [])

-- What UnmarshalText does: it sets the number, or fails with ErrInvalidDString, or DString panics.
pub data Unmarshalled : Type 0 where
  parsed : ℕ → Unmarshalled
  invalid_d_string : Unmarshalled
  panicked : Unmarshalled

abbrev pub or_panicked : Option ℕ → Unmarshalled
or_panicked (some s) = parsed s
or_panicked none = panicked

unfoldable pub unmarshal_text : Bytes → Unmarshalled
unmarshal_text txt = if ltb 4 (length txt) then invalid_d_string else or_panicked (d_string txt)

-- A text that does not end in a zero byte.
abbrev pub ends_nonzero : Bytes → Bool
ends_nonzero [] = true
ends_nonzero (a ∷ []) = not (a == 0)
ends_nonzero (a ∷ b ∷ s) = ends_nonzero (b ∷ s)

-- A text of at most four bytes is parsed: to a number of 32 bits, which is parsed again from its
-- own String, and whose String is the text if that does not end in a zero byte.
abbrev IsParsed : Bytes → Type 0
IsParsed txt =
    (s : ℕ) × (unmarshal_text txt ≡ parsed s)
    × (s < 2 ^ 32)
    × (unmarshal_text (to_string s) ≡ parsed s)
    × (ends_nonzero txt ≡ true → to_string s ≡ txt)

to_string-parsed : (s : ℕ) → s < 2 ^ 32 → unmarshal_text (to_string s) ≡ parsed s
unfolding unmarshal_text d_string to_string
to_string-parsed s h = ground (arith, h)

short_text : (txt : Bytes) → length txt ≤ 4 → All IsByte txt → IsParsed txt
unfolding unmarshal_text d_string to_string
short_text [] h bs = (0, refl, omega arith, refl, λ e. refl)
short_text (a ∷ []) h bs =
    (a, refl, omega (arith, bs), to_string-parsed a (omega (arith, bs)), λ e. ground (arith, bs, e))
short_text (a ∷ b ∷ []) h bs =
    let s = a + b * 2 ^ 8 in
    (s, refl, omega (arith, bs), to_string-parsed s (omega (arith, bs)), λ e. ground (arith, bs, e))
short_text (a ∷ b ∷ c ∷ []) h bs =
    let s = a + b * 2 ^ 8 + c * 2 ^ 16 in
    (s, refl, omega (arith, bs), to_string-parsed s (omega (arith, bs)), λ e. ground (arith, bs, e))
short_text (a ∷ b ∷ c ∷ d ∷ []) h bs =
    let s = a + b * 2 ^ 8 + c * 2 ^ 16 + d * 2 ^ 24 in
    (s, refl, omega (arith, bs), to_string-parsed s (omega (arith, bs)), λ e. ground (arith, bs, e))
short_text (a ∷ b ∷ c ∷ d ∷ x ∷ s) h bs = absurd (omega (arith, h))

-- UnmarshalText never panics, whatever bytes it gets: a text of more than four bytes is the
-- error ErrInvalidDString, and one of at most four bytes is read as a number of 32 bits.
-- UnmarshalText reads the String of that number as the same number, and if the text does not end
-- in a zero byte, the String is the text.
pub unmarshal_text-to_string :
    (txt : Bytes)
    → All IsByte txt
    → (4 < length txt → unmarshal_text txt ≡ invalid_d_string)
      × (length txt ≤ 4
          → (s : ℕ) × (unmarshal_text txt ≡ parsed s)
            × (s < 2 ^ 32)
            × (unmarshal_text (to_string s) ≡ parsed s)
            × (ends_nonzero txt ≡ true → to_string s ≡ txt))
unfolding unmarshal_text
unmarshal_text-to_string txt bs = (λ h. ground (arith, h), λ h. short_text txt h bs)
