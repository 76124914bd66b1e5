-- ===== src/Protocol/BitSet/Examples.antt =====
-- The set of 8 bits with the members 1 and 3.
use gowarcraft.Prelude.{ℕ, ◌≡◌, ◌+◌, ◌∷◌, [], true, false, some, none, if◌then◌else◌, ltb, arith}
use gowarcraft.Protocol.BitSet.{test, from_flags}
use gowarcraft.Protocol.BitSet.Members.{test-from_flags, flag}

test-from_flags_example :
    (b : ℕ) × (from_flags 8 0 0 (true ∷ false ∷ true ∷ []) ≡ some b)
    × (test 8 b (2 + 1) ≡ (if ltb 2 8 then some (flag 2 (true ∷ false ∷ true ∷ [])) else none))
test-from_flags_example = test-from_flags 8 2 (true ∷ false ∷ true ∷ []) (omega arith)
