-- ===== src/Protocol/BitSet/Members.antt =====
-- The sets as sets of numbers from 1 on.
use gowarcraft.Prelude.{
  ℕ, zero, suc, ◌+◌, ◌-◌, ◌==◌, ◌≡◌, ◌≤◌, ◌||◌, ◌&&◌, Bool, true, false, some, none, ltb, leb,
  if◌then◌else◌, List, [], ◌∷◌, length, arith, refl,
}
use gowarcraft.Protocol.BitSet.{test, insert, clear, from_flags, test_bit, set_bit}
use gowarcraft.Protocol.BitSet.Laws.{test_bit-set_bit, test_bit-clear_bit, test_bit-zero}

-- After Set the member is in the bit set, after Clear it is not, and Test of every other number
-- answers, or panics, as before.
pub test-changed :
    (w b c d i j : ℕ)
    → insert w b i ≡ some c
    → clear w b i ≡ some d
    → (test w c j ≡ (if i == j then some true else test w b j))
      × (test w d j ≡ (if i == j then some false else test w b j))
unfolding insert clear test
test-changed w b c d i j ec ed = (
  ground (arith, ec, test_bit-set_bit (j - 1) (i - 1) b),
  ground (arith, ed, test_bit-clear_bit (j - 1) (i - 1) b),
)

abbrev pub flag : ℕ → List Bool → Bool
flag j [] = false
flag zero (f ∷ flags) = f
flag (suc j) (f ∷ flags) = flag j flags

flag-cons :
    (i j : ℕ) (f : Bool) (flags : List Bool)
    → (leb i j && flag (j - i) (f ∷ flags))
      ≡ (if i == j then f else leb (i + 1) j && flag (j - (i + 1)) flags)
flag-cons i j f flags = rw (← minus_suc) (ground (arith, at_index (j - i)))
  where
    minus_suc : j - i - 1 ≡ j - (i + 1)
    minus_suc = omega arith

    at_index : (n : ℕ) → flag n (f ∷ flags) ≡ (if n == 0 then f else flag (n - 1) flags)
    at_index zero = refl
    at_index (suc n) = ground arith

flagged :
    (w b i : ℕ) (flags : List Bool)
    → i + length flags ≤ w
    → (c : ℕ) × (from_flags w b i flags ≡ some c)
      × ((j : ℕ) → test_bit j c ≡ (test_bit j b || leb i j && flag (j - i) flags))
unfolding from_flags insert
flagged w b i [] h = (b, refl, λ j. ground arith)
flagged w b i (true ∷ flags) h =
    let rest = flagged w (set_bit i b) (i + 1) flags (omega (arith, h)) in
    (
      rest.0,
      ground (arith, h, rest.1),
      λ j. ground (arith, rest.2 j, flag-cons i j true flags, test_bit-set_bit j i b),
    )
flagged w b i (false ∷ flags) h =
    let rest = flagged w b (i + 1) flags (omega (arith, h)) in
    (rest.0, ground (arith, h, rest.1), λ j. ground (arith, rest.2 j, flag-cons i j false flags))

-- A bit set that is made from at most as many flags as it has bits has exactly the members whose
-- flag is set, and Test panics above its size.
pub test-from_flags :
    (w j : ℕ) (flags : List Bool)
    → length flags ≤ w
    → (b : ℕ) × (from_flags w 0 0 flags ≡ some b)
      × (test w b (j + 1) ≡ (if ltb j w then some (flag j flags) else none))
unfolding test
test-from_flags w j flags h =
    let all = flagged w 0 0 flags (omega (arith, h)) in
    (all.0, all.1, ground (arith, all.2 j, test_bit-zero j))
