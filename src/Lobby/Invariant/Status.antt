-- ===== src/Lobby/Invariant/Status.antt =====
-- Slots that are opened, closed and reset, and players that leave.
use gowarcraft.Prelude.{
  ℕ, zero, suc, ◌==◌, ◌<◌, ◌≡◌, Bool, true, false, if◌then◌else◌, List, [], ◌∷◌, length, arith,
  refl, Bool-cases, inl, inr,
}
use gowarcraft.W3gs.Slots.{SlotData}
use gowarcraft.Lobby.Slots.{Lobby, get_slot, count_if, has_pid, slot_occupied}
use gowarcraft.Lobby.Slots.Laws.{length-set, All-get_slot, All-set}
use gowarcraft.Lobby.Changes.{
  with_base, set_status, reset_slot, Answer, change_slot_status, contains,
}
use gowarcraft.Lobby.Invariant.{
  Inv, IsSlot, IsBase, IsPid, is_seat, occurrences, put-Inv, refill-Inv,
}
use gowarcraft.Lobby.Invariant.Changes.{original-IsBase}

pub base-IsSlot : (obs : ℕ) (s : SlotData) → IsBase obs s → IsSlot obs s
base-IsSlot obs s b = record {
  color = b.color;
  team = b.team;
  taken = ground (arith, b.free);
  human = ground (arith, b.free);
}

pub reset_slot-Inv :
    (l : Lobby) (sid : ℕ)
    → Inv l
    → sid < length l.slots
    → is_seat (get_slot l.slots sid) ≡ false
    → Inv (reset_slot l sid)
reset_slot-Inv l sid v h e =
    refill-Inv l sid _ v h (base-IsSlot l.obs_team _ (original-IsBase l v sid h)) e
      (original-IsBase l v sid h).free

with_base-Inv :
    (l : Lobby) (sid : ℕ) (s : SlotData) → Inv l → IsBase l.obs_team s → Inv (with_base l sid s)
with_base-Inv l sid s v hs = record {
  same_length = omega (arith, v.same_length, length-set l.slot_base.slots sid s);
  few = v.few;
  slots = v.slots;
  base = All-set (IsBase l.obs_team) l.slot_base.slots sid s v.base hs;
  teams = v.teams;
  colors = v.colors;
  members = v.members;
  counted = v.counted;
  seats = v.seats;
  single = v.single;
}

-- A slot whose id is no player's has the id of no player at all.
occurrences-contains :
    (pid : ℕ) (players : List ℕ) → contains players pid ≡ false → occurrences pid players ≡ 0
occurrences-contains pid [] h = refl
occurrences-contains pid (p ∷ players) h = ground (arith, occurrences-contains pid players)

count_if-pos :
    (p : SlotData → Bool) (slots : List SlotData) (i : ℕ)
    → i < length slots
    → p (get_slot slots i) ≡ true
    → 0 < count_if p slots
unfolding count_if
count_if-pos p [] i h e = absurd (omega arith)
count_if-pos p (s ∷ slots) zero h e = ground arith
count_if-pos p (s ∷ slots) (suc i) h e = ground (arith, count_if-pos p slots i)

unknown-is_seat :
    (l : Lobby) (sid : ℕ)
    → Inv l
    → sid < length l.slots
    → contains l.players (get_slot l.slots sid).player_id ≡ false
    → is_seat (get_slot l.slots sid) ≡ false
unknown-is_seat l sid v h e = elim (Bool-cases (is_seat (get_slot l.slots sid))) [
  | inl yes_seat ↦ absurd (impossible (ground (arith, yes_seat)))
  | inr no_seat ↦ no_seat
]
  where
    impossible : IsPid (get_slot l.slots sid).player_id → ⊥
    impossible hp = omega (
      arith,
      v.seats (get_slot l.slots sid).player_id hp,
      occurrences-contains (get_slot l.slots sid).player_id l.players e,
      count_if-pos (has_pid (get_slot l.slots sid).player_id) l.slots sid h (ground arith),
    )

pub if-Inv :
    (c : Bool) (x y : Lobby × Answer)
    → (c ≡ true → Inv x.0)
    → (c ≡ false → Inv y.0)
    → Inv (if c then x else y).0
if-Inv true x y hx hy = hx refl
if-Inv false x y hx hy = hy refl

pub change_slot_status-Inv :
    (l : Lobby) (sid status : ℕ) (kick : Bool)
    → Inv l
    → sid < length l.slots
    → Inv (change_slot_status l sid status kick).0
unfolding change_slot_status
change_slot_status-Inv l sid status kick v h =
    if-Inv (status == slot_occupied) _ _ (λ e. v)
      λ e.
        if-Inv ((get_slot l.slots sid).slot_status == slot_occupied) _ _
          (λ e.
            if-Inv (contains l.players (get_slot l.slots sid).player_id) _ _ (λ e. based)
              λ u. reset_slot-Inv based_lobby sid based h (unknown-is_seat l sid v h u))
          λ n.
            put-Inv based_lobby sid (set_status (get_slot l.slots sid) status) based h
              (restatused n) refl
  where
    base : IsBase l.obs_team (get_slot l.slot_base.slots sid)
    base = original-IsBase l v sid h

    slot : IsSlot l.obs_team (get_slot l.slots sid)
    slot = All-get_slot (IsSlot l.obs_team) l.slots sid v.slots h

    based_lobby : Lobby
    based_lobby = with_base l sid (set_status (get_slot l.slot_base.slots sid) status)

    based : Inv (with_base l sid (set_status (get_slot l.slot_base.slots sid) status))
    based =
        with_base-Inv l sid _ v (record { color = base.color; team = base.team; free = base.free })

    restatused :
        (get_slot l.slots sid).slot_status == slot_occupied ≡ false
        → IsSlot l.obs_team (set_status (get_slot l.slots sid) status)
    restatused n = record {
      color = slot.color;
      team = slot.team;
      taken = ground (arith, slot.taken, n);
      human = ground (arith, slot.human, n);
    }
