-- ===== src/Protocol/BitSet.antt =====
-- protocol/bitset.go: the sets of 8, 16 and 32 bits, and the functions of math/bits that are used
-- on them. A word is read digit by digit from its lowest bit.
pub mod Laws
pub mod Members
mod Examples
use gowarcraft.Prelude.{
  ℕ, zero, suc, ◌+◌, ◌-◌, ◌*◌, ◌/◌, ◌%◌, ◌==◌, Bool, true, false, Option, some, none, ltb,
  if◌then◌else◌, ◌||◌, List, [], ◌∷◌,
}

-- b & (1 << i) != 0
unfoldable pub test_bit : ℕ → ℕ → Bool
test_bit zero b = b % 2 == 1
test_bit (suc i) b = test_bit i (b / 2)

-- b | (1 << i)
unfoldable pub set_bit : ℕ → ℕ → ℕ
set_bit zero b = b / 2 * 2 + 1
set_bit (suc i) b = set_bit i (b / 2) * 2 + b % 2

-- b & ^(1 << i)
unfoldable pub clear_bit : ℕ → ℕ → ℕ
clear_bit zero b = b / 2 * 2
clear_bit (suc i) b = clear_bit i (b / 2) * 2 + b % 2

-- ^b on words of w bits
unfoldable pub complement : ℕ → ℕ → ℕ
complement zero b = 0
complement (suc w) b = complement w (b / 2) * 2 + (1 - b % 2)

-- bits.OnesCount of the lowest w bits
unfoldable pub ones : ℕ → ℕ → ℕ
ones zero b = 0
ones (suc w) b = ones w (b / 2) + b % 2

-- bits.TrailingZeros on words of w bits; it is w for 0.
unfoldable pub trailing_zeros : ℕ → ℕ → ℕ
trailing_zeros zero b = 0
trailing_zeros (suc w) b = if b % 2 == 1 then 0 else suc (trailing_zeros w (b / 2))

-- The methods of a set of w bits, whose members are 1 to w. They panic on any other.
abbrev pub out_of_range : ℕ → ℕ → Bool
out_of_range w i = ltb i 1 || ltb w i

unfoldable pub test : ℕ → ℕ → ℕ → Option Bool
test w b i = if out_of_range w i then none else some (test_bit (i - 1) b)

unfoldable pub insert : ℕ → ℕ → ℕ → Option ℕ
insert w b i = if out_of_range w i then none else some (set_bit (i - 1) b)

unfoldable pub clear : ℕ → ℕ → ℕ → Option ℕ
clear w b i = if out_of_range w i then none else some (clear_bit (i - 1) b)

-- BS8, BS16 and BS32: the loop over the flags, from the index i on.
abbrev pub insert_if : ℕ → Bool → ℕ → ℕ → Option ℕ
insert_if w true b i = insert w b i
insert_if w false b i = some b

unfoldable pub from_flags : ℕ → ℕ → ℕ → List Bool → Option ℕ
from_flags w b i [] = some b
from_flags w b i (f ∷ flags) = elim (insert_if w f b (i + 1)) [
  | none ↦ none
  | some b' ↦ from_flags w b' (i + 1) flags
]
