-- ===== src/Lobby/Seats/Leaving.antt =====
-- A player that joins and leaves.
use gowarcraft.Prelude.{
  ℕ, zero, suc, ◌<◌, ◌∷◌, [], ◌≡◌, true, Option, some, none, List, length, set, arith, refl, sym,
  ap, subst, ◌∙◌,
}
use gowarcraft.W3gs.Slots.{SlotData}
use gowarcraft.Lobby.Slots.{
  Lobby, Result, ok, err, panic, ◌>>=◌, count_if, has_pid, find_empty_slot, get_slot, is_open,
  find_slot, pid_to_sid,
}
use gowarcraft.Lobby.Slots.Laws.{find_slot-eq-some}
use gowarcraft.Lobby.Changes.{join, welcome, delete, accepted}
use gowarcraft.Lobby.Hosting.{on_leave, at_player}
use gowarcraft.Lobby.Invariant.{Inv, occurrences}
use gowarcraft.Lobby.Invariant.Joining.{SeatOk, seat, no_seat, take_seat-SeatOk}
use gowarcraft.Lobby.Seats.{Seated, seated, unseated, take_seat-Seated, seated_lobby}

find_slot-set :
    (pid : ℕ) (slots : List SlotData) (i : ℕ) (s : SlotData)
    → i < length slots
    → count_if (has_pid pid) slots ≡ 0
    → find_slot (has_pid pid) (set slots i (record s { player_id = pid })) ≡ some i
unfolding find_slot count_if
find_slot-set pid [] i s h e = absurd (omega arith)
find_slot-set pid (x ∷ slots) zero s h e = ground arith
find_slot-set pid (x ∷ slots) (suc i) s h e = ground (arith, find_slot-set pid slots i s)

set-set : (slots : List SlotData) (i : ℕ) (s t : SlotData) → set (set slots i s) i t ≡ set slots i t
set-set [] i s t = refl
set-set (x ∷ slots) zero s t = refl
set-set (x ∷ slots) (suc i) s t = ap (λ r. x ∷ r) (set-set slots i s t)

set-get_slot : (slots : List SlotData) (i : ℕ) → set slots i (get_slot slots i) ≡ slots
set-get_slot [] i = refl
set-get_slot (x ∷ slots) zero = refl
set-get_slot (x ∷ slots) (suc i) = ap (λ r. x ∷ r) (set-get_slot slots i)

delete-cons :
    (pid : ℕ) (players : List ℕ)
    → occurrences pid players ≡ 0
    → delete pid (pid ∷ players) ≡ players
unfolding delete
delete-cons pid players h = ground (arith, absent players h)
  where
    absent : (players : List ℕ) → occurrences pid players ≡ 0 → delete pid players ≡ players
    absent [] h = refl
    absent (p ∷ players) h = ground (arith, absent players)

abbrev LeaveOk : Lobby → Result (Lobby × Option ℕ) → Type 0
LeaveOk l (ok (l', some pid)) = on_leave l' pid ≡ some (l, accepted)
LeaveOk l (ok (l', none)) = Unit
LeaveOk l (err e) = Unit
LeaveOk l panic = Unit

seat-LeaveOk :
    (l : Lobby) (i : ℕ) (r : Result (Lobby × ℕ))
    → Inv l
    → find_empty_slot l ≡ some i
    → get_slot l.slots i ≡ get_slot l.slot_base.slots i
    → SeatOk l r
    → Seated l r
    → LeaveOk l (r >>= welcome true)
unfolding find_empty_slot seated_lobby on_leave pid_to_sid
seat-LeaveOk l i _ v ei eb (no_seat e) (unseated _) = tt
seat-LeaveOk l i _ v ei eb (seat _ pid e w hp new) (seated sid s _ es ep hs ht) =
    rw (found, at_player) (rw back (rw (delete-cons pid l.players new) refl))
  where
    same : i ≡ sid
    same = ground (arith, sym ei ∙ es)

    at_slot : (sid < length l.slots) × (is_open (get_slot l.slots sid) ≡ true)
    at_slot = find_slot-eq-some is_open l.slots sid es

    found :
        find_slot (has_pid pid) (
          set
            (set l.slots sid s)
            sid
            (record (get_slot (set l.slots sid s) sid) { player_id = pid }))
        ≡ some sid
    found = rw (set-set l.slots sid s) (
        find_slot-set pid l.slots sid (get_slot (set l.slots sid s) sid) at_slot.0
          (ground (arith, v.seats pid hp, new)))

    back :
        set
          (set
            (set l.slots sid s)
            sid
            (record (get_slot (set l.slots sid s) sid) { player_id = pid }))
          sid
          (get_slot l.slot_base.slots sid)
        ≡ l.slots
    back =
        rw (set-set l.slots sid s, set-set l.slots sid)
          (rw (← same) (rw (← eb) (set-get_slot l.slots i)))

-- If the first open slot of a well-formed lobby is as the map has it, a player that joins and
-- then leaves leaves the lobby as it was.
pub on_leave-join :
    (l l' : Lobby) (sid pid : ℕ)
    → Inv l
    → find_empty_slot l ≡ some sid
    → get_slot l.slots sid ≡ get_slot l.slot_base.slots sid
    → join true l ≡ ok (l', some pid)
    → on_leave l' pid ≡ some (l, accepted)
unfolding join
on_leave-join l l' sid pid v es eb e =
    subst (LeaveOk l) e (seat-LeaveOk l sid _ v es eb (take_seat-SeatOk l v) (take_seat-Seated l))
