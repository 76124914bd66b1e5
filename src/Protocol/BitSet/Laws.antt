-- ===== src/Protocol/BitSet/Laws.antt =====
-- The operations on the members of a set.
use gowarcraft.Prelude.{
  ℕ, zero, suc, ◌+◌, ◌/◌, ◌==◌, ◌≤◌, ◌<◌, ◌≡◌, true, false, if◌then◌else◌, not, arith, refl,
}
use gowarcraft.Protocol.BitSet.{test_bit, set_bit, clear_bit, complement, ones, trailing_zeros}

pub test_bit-set_bit :
    (i j b : ℕ) → test_bit i (set_bit j b) ≡ (if i == j then true else test_bit i b)
unfolding test_bit set_bit
test_bit-set_bit zero zero b = ground arith
test_bit-set_bit zero (suc j) b = ground arith
test_bit-set_bit (suc i) zero b = ground arith
test_bit-set_bit (suc i) (suc j) b = ground (arith, test_bit-set_bit i j (b / 2))

pub test_bit-clear_bit :
    (i j b : ℕ) → test_bit i (clear_bit j b) ≡ (if i == j then false else test_bit i b)
unfolding test_bit clear_bit
test_bit-clear_bit zero zero b = ground arith
test_bit-clear_bit zero (suc j) b = ground arith
test_bit-clear_bit (suc i) zero b = ground arith
test_bit-clear_bit (suc i) (suc j) b = ground (arith, test_bit-clear_bit i j (b / 2))

pub test_bit-complement : (w i b : ℕ) → i < w → test_bit i (complement w b) ≡ not (test_bit i b)
unfolding test_bit complement
test_bit-complement zero i b h = absurd (omega arith)
test_bit-complement (suc w) zero b h = ground arith
test_bit-complement (suc w) (suc i) b h = ground (arith, test_bit-complement w i (b / 2))

-- The index that `trailing_zeros` finds is a member, unless there is none.
pub test_bit-trailing_zeros :
    (w b : ℕ) → trailing_zeros w b < w → test_bit (trailing_zeros w b) b ≡ true
unfolding test_bit trailing_zeros
test_bit-trailing_zeros zero b h = absurd (omega arith)
test_bit-trailing_zeros (suc w) b h = ground (arith, test_bit-trailing_zeros w (b / 2))

pub ones-set_bit-le : (w i b : ℕ) → ones w (set_bit i b) ≤ ones w b + 1
unfolding ones set_bit
ones-set_bit-le zero i b = omega arith
ones-set_bit-le (suc w) zero b = ground arith
ones-set_bit-le (suc w) (suc i) b = ground (arith, ones-set_bit-le w i (b / 2))

pub ones-le-clear_bit : (w i b : ℕ) → ones w b ≤ ones w (clear_bit i b) + 1
unfolding ones clear_bit
ones-le-clear_bit zero i b = omega arith
ones-le-clear_bit (suc w) zero b = ground arith
ones-le-clear_bit (suc w) (suc i) b = ground (arith, ones-le-clear_bit w i (b / 2))

pub ones-complement : (w b : ℕ) → ones w (complement w b) + ones w b ≡ w
unfolding ones complement
ones-complement zero b = refl
ones-complement (suc w) b = ground (arith, ones-complement w (b / 2))

pub trailing_zeros-lt : (w b : ℕ) → 0 < ones w b → trailing_zeros w b < w
unfolding ones trailing_zeros
trailing_zeros-lt zero b h = absurd (omega arith)
trailing_zeros-lt (suc w) b h = ground (arith, trailing_zeros-lt w (b / 2))

pub ones-zero : (w : ℕ) → ones w 0 ≡ 0
unfolding ones
ones-zero zero = refl
ones-zero (suc w) = ground (arith, ones-zero w)

pub test_bit-zero : (i : ℕ) → test_bit i 0 ≡ false
unfolding test_bit
test_bit-zero zero = refl
test_bit-zero (suc i) = ground (arith, test_bit-zero i)
