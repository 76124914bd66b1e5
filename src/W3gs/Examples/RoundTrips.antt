-- ===== src/W3gs/Examples/RoundTrips.antt =====
-- The packets with variable parts, written and read at concrete values.
use gowarcraft.Prelude.{◌≡◌, [], ◌∷◌, arith}
use gowarcraft.W3gs.TimeSlot.{read_actions}
use gowarcraft.W3gs.TimeSlot.RoundTrip.{read_actions-fuel}

read_actions-fuel_example :
    read_actions 4 4 (1 ∷ 1 ∷ 0 ∷ 9 ∷ []) ≡ read_actions 100 4 (1 ∷ 1 ∷ 0 ∷ 9 ∷ [])
read_actions-fuel_example =
    read_actions-fuel 4 100 4 (1 ∷ 1 ∷ 0 ∷ 9 ∷ []) (omega arith) (omega arith)
