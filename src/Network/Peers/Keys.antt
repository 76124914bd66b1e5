-- ===== src/Network/Peers/Keys.antt =====
-- The numbers of players and objects as keys.
use gowarcraft.Prelude.{ℕ, ◌==◌, ◌≡◌, some, List, arith}
use gowarcraft.Dict.{IsKey, lookup, assign, lookup-assign}

pub ==-IsKey : IsKey ◌==◌
==-IsKey = record { self = λ n. ground arith; same = λ m n h. ground (arith, h) }

pub lookup-assign_self :
    {V : Type 0} (k : ℕ) (v : V) (d : List (ℕ × V)) → lookup ◌==◌ k (assign ◌==◌ k v d) ≡ some v
lookup-assign_self k v d = ground (arith, lookup-assign ◌==◌ ==-IsKey k k v d)
