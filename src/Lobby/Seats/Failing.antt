-- ===== src/Lobby/Seats/Failing.antt =====
-- What a join leaves behind when the packets for the new player cannot be sent.
use gowarcraft.Prelude.{
  ℕ, ◌<◌, length, ◌≡◌, true, false, Option, some, none, All, arith, sym, subst, ◌∙◌,
}
use gowarcraft.Lobby.Slots.{
  Lobby, Result, ok, err, panic, ◌>>=◌, count_if, has_pid, find_empty_pid, find_empty_slot,
  get_slot, is_open,
}
use gowarcraft.Lobby.Slots.Laws.{find_slot-eq-some, All-get_slot}
use gowarcraft.Lobby.Changes.{join, welcome}
use gowarcraft.Lobby.Invariant.{Inv, IsPid, IsSlot, occurrences}
use gowarcraft.Lobby.Invariant.Joining.{SeatOk, seat, no_seat, take_seat-SeatOk}
use gowarcraft.Lobby.Seats.{
  Seated, seated, unseated, broken, take_seat-Seated, seated_lobby, count_if-seated_lobby,
}

-- A slot has the id that the next player gets.
record IsLeaked (l l' : Lobby) (pid : ℕ) : Type 0 where
  pub is_pid : IsPid pid
  pub unused : occurrences pid l.players ≡ 0
  pub next_pid : find_empty_pid l' ≡ ok pid
  pub slots : All (IsSlot l'.obs_team) l'.slots
  pub one_slot : count_if (has_pid pid) l'.slots ≡ 1

abbrev FailedOk : Lobby → Result (Lobby × Option ℕ) → Type 0
FailedOk l (ok (l', none)) = (pid : ℕ) × IsLeaked l l' pid
FailedOk l (ok (l', some pid)) = Unit
FailedOk l (err e) = Unit
FailedOk l panic = Unit

seat-FailedOk :
    (l : Lobby) (r : Result (Lobby × ℕ))
    → SeatOk l r
    → Seated l r
    → FailedOk l (r >>= welcome false)
unfolding find_empty_pid seated_lobby
seat-FailedOk l _ (no_seat e) (unseated _) = tt
seat-FailedOk l _ (seat _ pid e v hp new) (seated sid s _ es ep hs ht) = (
  pid,
  record {
    is_pid = hp;
    unused = new;
    next_pid = ep;
    slots = v.slots;
    one_slot = ground (arith, v.seats pid hp, new);
  },
)

-- The next player has the slot and the leaked one.
abbrev DoubledOk : Lobby → Result (Lobby × Option ℕ) → Type 0
DoubledOk l (ok (l', some pid)) =
    (occurrences pid l.players ≡ 0) × (count_if (has_pid pid) l'.slots ≡ 2)
DoubledOk l (ok (l', none)) = Unit
DoubledOk l (err e) = Unit
DoubledOk l panic = Unit

seat-DoubledOk :
    (l l1 : Lobby) (pid : ℕ) (r : Result (Lobby × ℕ))
    → IsLeaked l l1 pid
    → Seated l1 r
    → DoubledOk l (r >>= welcome true)
unfolding find_empty_slot
seat-DoubledOk l l1 pid _ h (unseated e) = tt
seat-DoubledOk l l1 pid _ h broken = tt
seat-DoubledOk l l1 pid _ h (seated sid s pid2 es ep hs ht) = (
  rw (← same) h.unused,
  ground (
    arith,
    same,
    at_slot,
    h.one_slot,
    h.is_pid,
    (All-get_slot (IsSlot l1.obs_team) l1.slots sid h.slots at_slot.0).taken,
    count_if-seated_lobby (has_pid pid2) l1 sid s pid2 at_slot.0,
  ),
)
  where
    same : pid ≡ pid2
    same = ground (arith, sym h.next_pid ∙ ep)

    at_slot : (sid < length l1.slots) × (is_open (get_slot l1.slots sid) ≡ true)
    at_slot = find_slot-eq-some is_open l1.slots sid es

-- If the packets for a new player cannot be sent, the next player that joins gets the same id,
-- and two slots have it.
pub join-leak :
    (l l1 l2 : Lobby) (pid : ℕ)
    → Inv l
    → join false l ≡ ok (l1, none)
    → join true l1 ≡ ok (l2, some pid)
    → (occurrences pid l.players ≡ 0) × (count_if (has_pid pid) l2.slots ≡ 2)
unfolding join
join-leak l l1 l2 pid v e e' =
    let leaked =
      subst (FailedOk l) e (seat-FailedOk l _ (take_seat-SeatOk l v) (take_seat-Seated l)) in
    subst (DoubledOk l) e' (seat-DoubledOk l l1 leaked.0 _ leaked.1 (take_seat-Seated l1))
