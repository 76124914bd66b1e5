-- ===== src/Lobby/Seats.antt =====
-- The seat that join gives to a player: the slot and the id.
pub mod Ids
pub mod Leaving
pub mod Failing
use gowarcraft.Prelude.{
  ℕ, zero, suc, ◌+◌, ◌==◌, ◌≤◌, ◌<◌, ◌≡◌, ◌&&◌, ◌||◌, Bool, true, false, Option, some, none,
  if◌then◌else◌, List, [], ◌∷◌, length, set, arith, refl, ap, Option-cases, inl, inr,
}
use gowarcraft.W3gs.Slots.{SlotData}
use gowarcraft.Lobby.Slots.{
  Lobby, Result, ok, err, panic, ◌>>=◌, ◌>>◌, refuse_if, or_err, LobbyError, full, lobby_locked,
  get_slot, with_slot, init_slot, init_color, init_team, find_slot, find_empty_slot, find_empty_pid,
  is_open, count_if, slot_occupied,
}
use gowarcraft.Lobby.Slots.Laws.{bit, length-set, get_slot-set, count_if-set, find_slot-eq-some}
use gowarcraft.Lobby.Changes.{take_seat, join, welcome}

-- What initSlot does to a lobby, on every branch.
pub data Filled (l : Lobby) (sid : ℕ) : Result Lobby → Type 0 where
  filled :
      (s : SlotData)
      → s.slot_status ≡ slot_occupied
      → init_team l (get_slot l.slot_base.slots sid) ≡ ok s.team
      → Filled l sid (ok (with_slot l sid s))
  unfilled : (e : LobbyError) → Filled l sid (err e)
  broken_set : Filled l sid panic

init_slot-Filled : (l : Lobby) (sid : ℕ) → Filled l sid (init_slot l sid)
unfolding init_slot
init_slot-Filled l sid =
    place (init_color l (get_slot l.slot_base.slots sid))
      (init_team l (get_slot l.slot_base.slots sid)) refl
  where
    place :
        (c t : Result ℕ)
        → init_team l (get_slot l.slot_base.slots sid) ≡ t
        → Filled l sid (
            c >>= λ color. t >>= λ team. ok (
              with_slot l sid (record {
                player_id = 255;
                download_status = 255;
                slot_status = slot_occupied;
                computer = false;
                team = team;
                color = color;
                race = (get_slot l.slot_base.slots sid).race;
                computer_type = 0;
                handicap = (get_slot l.slot_base.slots sid).handicap;
              })))
    place (ok c) (ok t) h = filled _ refl h
    place (ok c) (err e) h = unfilled e
    place (ok c) panic h = broken_set
    place (err e) t h = unfilled e
    place panic t h = broken_set

-- The lobby with a slot that is filled first and then has its id.
unfoldable pub seated_lobby : Lobby → ℕ → SlotData → ℕ → Lobby
seated_lobby l sid s pid =
    with_slot (with_slot l sid s) sid
      (record (get_slot (set l.slots sid s) sid) { player_id = pid })

pub data Seated (l : Lobby) : Result (Lobby × ℕ) → Type 0 where
  seated :
      (sid : ℕ) (s : SlotData) (pid : ℕ)
      → find_empty_slot l ≡ some sid
      → find_empty_pid l ≡ ok pid
      → s.slot_status ≡ slot_occupied
      → init_team l (get_slot l.slot_base.slots sid) ≡ ok s.team
      → Seated l (ok (seated_lobby l sid s pid, pid))
  unseated : (e : LobbyError) → Seated l (err e)
  broken : Seated l panic

numbered :
    (l : Lobby) (sid : ℕ) (s : SlotData) (r : Result ℕ)
    → find_empty_slot l ≡ some sid
    → s.slot_status ≡ slot_occupied
    → init_team l (get_slot l.slot_base.slots sid) ≡ ok s.team
    → find_empty_pid l ≡ r
    → Seated l (
        r >>= λ pid. ok (
          with_slot
              (with_slot l sid s)
              sid
              (record (get_slot (set l.slots sid s) sid) { player_id = pid }),
          pid,
        ))
unfolding seated_lobby
numbered l sid s (ok pid) e hs ht ep = seated sid s pid e ep hs ht
numbered l sid s (err x) e hs ht ep = unseated x
numbered l sid s panic e hs ht ep = broken

-- The id does not depend on the slots.
find_empty_pid-slots :
    (l : Lobby) (sid : ℕ) (s : SlotData) → find_empty_pid (with_slot l sid s) ≡ find_empty_pid l
unfolding find_empty_pid
find_empty_pid-slots l sid s = refl

pub take_seat-Seated : (l : Lobby) → Seated l (take_seat l)
unfolding take_seat
take_seat-Seated l = at_lock l.locked
  where
    after_fill :
        (sid : ℕ) (r : Result Lobby)
        → find_empty_slot l ≡ some sid
        → Filled l sid r
        → Seated l (
            r >>= λ l'. find_empty_pid l' >>= λ pid.
            ok (with_slot l' sid (record (get_slot l'.slots sid) { player_id = pid }), pid))
    after_fill sid _ e (filled s hs ht) =
        rw (find_empty_pid-slots l sid s) (numbered l sid s (find_empty_pid l) e hs ht refl)
    after_fill sid _ e (unfilled x) = unseated x
    after_fill sid _ e broken_set = broken

    at_slot :
        (o : Option ℕ)
        → find_empty_slot l ≡ o
        → Seated l (
            or_err o full >>= λ sid. init_slot l sid >>= λ l'. find_empty_pid l' >>= λ pid.
            ok (with_slot l' sid (record (get_slot l'.slots sid) { player_id = pid }), pid))
    at_slot none e = unseated full
    at_slot (some sid) e = after_fill sid (init_slot l sid) e (init_slot-Filled l sid)

    at_lock :
        (c : Bool)
        → Seated l (
            refuse_if c lobby_locked
            >> (or_err (find_empty_slot l) full >>= λ sid. init_slot l sid >>= λ l'.
                find_empty_pid l' >>= λ pid.
                ok (with_slot l' sid (record (get_slot l'.slots sid) { player_id = pid }), pid)))
    at_lock true = unseated lobby_locked
    at_lock false = at_slot (find_empty_slot l) refl

-- How often `p` holds of the slots, before and after a player is seated.
pub count_if-seated_lobby :
    (p : SlotData → Bool) (l : Lobby) (sid : ℕ) (s : SlotData) (pid : ℕ)
    → sid < length l.slots
    → count_if p (seated_lobby l sid s pid).slots + bit (p (get_slot l.slots sid))
      ≡ count_if p l.slots + bit (p (record s { player_id = pid }))
unfolding seated_lobby
count_if-seated_lobby p l sid s pid h = rw at_sid (
    omega (
      arith,
      h,
      count_if-set p l.slots sid s h,
      count_if-set p (set l.slots sid s) sid (record s { player_id = pid })
          (omega (arith, h, length-set l.slots sid s)),
      ap (λ t. bit (p t)) at_sid,
    ))
  where
    at_sid : get_slot (set l.slots sid s) sid ≡ s
    at_sid = ground (arith, get_slot-set l.slots sid sid s h)
