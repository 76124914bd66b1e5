-- ===== src/Lobby/Invariant/Slots.antt =====
-- Calls that overwrite several slots, or the slots that a lobby starts with.
use gowarcraft.Prelude.{ℕ, ◌<◌, ◌≡◌, Bool, All, List, [], ◌∷◌, length, set, map, arith, refl}
use gowarcraft.W3gs.Slots.{SlotData}
use gowarcraft.Lobby.Slots.{Lobby, get_slot, count_if, has_pid, slot_occupied, fixed_settings}
use gowarcraft.Lobby.Slots.Laws.{length-set, All-get_slot}
use gowarcraft.Lobby.Changes.{swap_slots, moved}
use gowarcraft.Lobby.Hosting.{restatus, shuffle_pair, shuffle_pairs}
use gowarcraft.Lobby.Steps.{InRange}
use gowarcraft.Lobby.Invariant.{Inv, IsSlot, is_seat, swap-Inv}

pub moved-IsSlot :
    (obs : ℕ) (fixed swap_teams : Bool) (a b : SlotData)
    → IsSlot obs a
    → IsSlot obs b
    → IsSlot obs (moved fixed swap_teams a b)
moved-IsSlot obs fixed swap_teams a b ha hb = record {
  color = ground (arith, ha.color, hb.color);
  team = ground (arith, ha.team, hb.team);
  taken = ground (arith, ha.taken);
  human = ground (arith, ha.human);
}

moved-pid :
    (fixed swap_teams : Bool) (a b : SlotData)
    → (moved fixed swap_teams a b).player_id ≡ a.player_id
moved-pid fixed swap_teams a b = ground arith

pub swap_slots-Inv :
    (l : Lobby) (i j : ℕ) (swap_teams : Bool)
    → Inv l
    → i < length l.slots
    → j < length l.slots
    → Inv (swap_slots l i j swap_teams)
unfolding swap_slots
swap_slots-Inv l i j swap_teams v hi hj =
    swap-Inv l i j _ _ v hi hj (moved-IsSlot l.obs_team (fixed_settings l) swap_teams _ _ b a)
      (moved-IsSlot l.obs_team (fixed_settings l) swap_teams _ _ a b)
      (moved-pid (fixed_settings l) swap_teams (get_slot l.slots j) (get_slot l.slots i))
      (moved-pid (fixed_settings l) swap_teams (get_slot l.slots i) (get_slot l.slots j))
  where
    a : IsSlot l.obs_team (get_slot l.slots i)
    a = All-get_slot (IsSlot l.obs_team) l.slots i v.slots hi

    b : IsSlot l.obs_team (get_slot l.slots j)
    b = All-get_slot (IsSlot l.obs_team) l.slots j v.slots hj

length-swap_slots :
    (l : Lobby) (i j : ℕ) (swap_teams : Bool)
    → length (swap_slots l i j swap_teams).slots ≡ length l.slots
unfolding swap_slots
length-swap_slots l i j swap_teams = omega (
  arith,
  length-set l.slots i
      (moved (fixed_settings l) swap_teams (get_slot l.slots j) (get_slot l.slots i)),
  length-set
      (set l.slots i
        (moved (fixed_settings l) swap_teams (get_slot l.slots j) (get_slot l.slots i)))
      j (moved (fixed_settings l) swap_teams (get_slot l.slots i) (get_slot l.slots j)),
)

InRange-eq :
    (l k : Lobby) (pairs : List (ℕ × ℕ))
    → length k.slots ≡ length l.slots
    → All (InRange l) pairs
    → All (InRange k) pairs
InRange-eq l k [] e h = tt
InRange-eq l k ((i, j) ∷ pairs) e ((hi, hj), hs) =
    ((omega (arith, e), omega (arith, e)), InRange-eq l k pairs e hs)

pub shuffle_pairs-Inv :
    (shuffle_teams : Bool) (l : Lobby) (pairs : List (ℕ × ℕ))
    → Inv l
    → All (InRange l) pairs
    → Inv (shuffle_pairs shuffle_teams l pairs)
unfolding shuffle_pairs
shuffle_pairs-Inv shuffle_teams l [] v h = v
shuffle_pairs-Inv shuffle_teams l ((i, j) ∷ pairs) v ((hi, hj), hs) =
    shuffle_pairs-Inv shuffle_teams (shuffle_pair shuffle_teams l i j) pairs
      (swap_slots-Inv l i j _ v hi hj)
      (InRange-eq l (shuffle_pair shuffle_teams l i j) pairs (length-swap_slots l i j _) hs)

-- Opening or closing all slots.
length-restatus :
    (from to : ℕ) (slots : List SlotData) → length (map (restatus from to) slots) ≡ length slots
length-restatus from to [] = refl
length-restatus from to (s ∷ slots) = omega (arith, length-restatus from to slots)

count_if-restatus :
    (p : SlotData → Bool) (from to : ℕ) (slots : List SlotData)
    → ((s : SlotData) → p (restatus from to s) ≡ p s)
    → count_if p (map (restatus from to) slots) ≡ count_if p slots
unfolding count_if
count_if-restatus p from to [] h = refl
count_if-restatus p from to (s ∷ slots) h = ground (arith, h s, count_if-restatus p from to slots h)

restatus-IsSlot :
    (obs from to : ℕ) (slots : List SlotData)
    → from < slot_occupied
    → All (IsSlot obs) slots
    → All (IsSlot obs) (map (restatus from to) slots)
restatus-IsSlot obs from to [] lt h = tt
restatus-IsSlot obs from to (s ∷ slots) lt (h, hs) = (
  record {
    color = ground (arith, h.color);
    team = ground (arith, h.team);
    taken = ground (arith, h.taken, lt);
    human = ground (arith, h.human);
  },
  restatus-IsSlot obs from to slots lt hs,
)

pub restatus-Inv :
    (l : Lobby) (from to : ℕ)
    → Inv l
    → from < slot_occupied
    → Inv (record l { slots = map (restatus from to) l.slots })
restatus-Inv l from to v lt = record {
  same_length = omega (arith, v.same_length, length-restatus from to l.slots);
  few = omega (arith, v.few, length-restatus from to l.slots);
  slots = restatus-IsSlot l.obs_team from to l.slots lt v.slots;
  base = v.base;
  teams = v.teams;
  colors = omega (arith, v.colors, length-restatus from to l.slots);
  members = v.members;
  counted = omega (arith, v.counted, count_if-restatus is_seat from to l.slots (λ s. ground arith));
  seats = λ pid hp.
      omega (
        arith,
        v.seats pid hp,
        count_if-restatus (has_pid pid) from to l.slots (λ s. ground arith),
      );
  single = v.single;
}
