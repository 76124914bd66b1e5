-- ===== src/Lobby/Bounds.antt =====
-- How many players of a lobby play, and what a change of the handicap does.
use gowarcraft.Prelude.{
  ◌⊎◌, inl, inr, ℕ, ◌==◌, ◌≡◌, ◌≤◌, ◌<◌, ◌||◌, true, false, Bool, Option, some, List, [], ◌∷◌,
  if◌then◌else◌, arith, subst, length, ltb, set,
}
use gowarcraft.W3gs.Slots.{SlotData}
use gowarcraft.Lobby.Slots.{
  Lobby, Result, ok, err, panic, ◌>>=◌, get_slot, count_players, count_if, custom_forces, init_team,
  find_empty_slot, is_playing, is_open,
}
use gowarcraft.Lobby.Slots.Laws.{get_slot-set, length-set, find_slot-eq-some}
use gowarcraft.Lobby.Changes.{accepted, take_seat, join, welcome, change_team, change_handicap}
use gowarcraft.Lobby.Hosting.{host_change_handicap}
use gowarcraft.Lobby.Seats.{
  Seated, seated, unseated, broken, take_seat-Seated, seated_lobby, count_if-seated_lobby,
}

count_if-le_length : (p : SlotData → Bool) (slots : List SlotData) → count_if p slots ≤ length slots
unfolding count_if
count_if-le_length p [] = omega arith
count_if-le_length p (s ∷ slots) = ground (arith, count_if-le_length p slots)

-- A player gets a team that plays only where one may.
init_team-playing :
    (l : Lobby) (base : SlotData) (t : ℕ)
    → custom_forces l ≡ false
    → count_players l < 256
    → init_team l base ≡ ok t
    → (t == l.obs_team || ltb (count_players l) l.slot_base.num_players) ≡ true
unfolding init_team
init_team-playing l base t h few e = ground (arith, h, few, e)

abbrev BoundOk : Lobby → Result (Lobby × Option ℕ) → Type 0
BoundOk l (ok (l', p)) = count_players l' ≤ l.slot_base.num_players
BoundOk l (err e) = Unit
BoundOk l panic = Unit

seat-BoundOk :
    (l : Lobby) (sent : Bool) (r : Result (Lobby × ℕ))
    → custom_forces l ≡ false
    → length l.slots < 256
    → count_players l ≤ l.slot_base.num_players
    → Seated l r
    → BoundOk l (r >>= welcome sent)
unfolding count_players seated_lobby find_empty_slot
seat-BoundOk l sent _ hc few hn (unseated e) = tt
seat-BoundOk l sent _ hc few hn broken = tt
seat-BoundOk l sent _ hc few hn (seated sid s pid es ep hs ht) = by_sent sent
  where
    at_slot : (sid < length l.slots) × (is_open (get_slot l.slots sid) ≡ true)
    at_slot = find_slot-eq-some is_open l.slots sid es

    counted : count_players (seated_lobby l sid s pid) ≤ l.slot_base.num_players
    counted = ground (
      arith,
      hn,
      at_slot,
      count_if-seated_lobby (is_playing l.obs_team) l sid s pid at_slot.0,
      init_team-playing l (get_slot l.slot_base.slots sid) s.team hc
          (omega (arith, few, count_if-le_length (is_playing l.obs_team) l.slots)) ht,
    )

    by_sent : (b : Bool) → BoundOk l (welcome b (seated_lobby l sid s pid, pid))
    by_sent true = counted
    by_sent false = counted

change_team-bound :
    (l l' : Lobby) (sid t : ℕ)
    → length l.slots < 256
    → change_team l sid t ≡ ok l'
    → count_players l' ≤ l.slot_base.num_players
unfolding change_team count_players
change_team-bound l l' sid t few e =
    ground
      (arith, e, few, length-set l.slots sid (record (get_slot l.slots sid) { team = t }), small)
  where
    small :
        count_players
          (record l { slots = set l.slots sid (record (get_slot l.slots sid) { team = t }) })
        ≤ length (set l.slots sid (record (get_slot l.slots sid) { team = t }))
    small = count_if-le_length (is_playing l.obs_team) _

-- Without custom forces, in a lobby of fewer than 256 slots where no more players play than the
-- map has places, neither a join nor an accepted change of a team makes more of them play.
pub playing-bound :
    (l l' : Lobby) (sent : Bool) (p : Option ℕ) (sid t : ℕ)
    → custom_forces l ≡ false
    → length l.slots < 256
    → count_players l ≤ l.slot_base.num_players
    → (join sent l ≡ ok (l', p)) ⊎ (change_team l sid t ≡ ok l')
    → count_players l' ≤ l.slot_base.num_players
unfolding join
playing-bound l l' sent p sid t hc few hn (inl e) =
    subst (BoundOk l) e (seat-BoundOk l sent (take_seat l) hc few hn (take_seat-Seated l))
playing-bound l l' sent p sid t hc few hn (inr e) = change_team-bound l l' sid t few e

-- When ChangeHandicap is accepted, the slot has the new handicap, except when this equals the
-- color of the slot: then the old handicap stays.
pub host_change_handicap-handicap :
    (l l' : Lobby) (sid h : ℕ)
    → sid < length l.slots
    → host_change_handicap l sid h ≡ some (l', accepted)
    → (get_slot l'.slots sid).handicap
      ≡ (if (get_slot l.slots sid).color == h then (get_slot l.slots sid).handicap else h)
unfolding host_change_handicap change_handicap
host_change_handicap-handicap l l' sid h lt e =
    ground
      (arith, e, get_slot-set l.slots sid sid (record (get_slot l.slots sid) { handicap = h }) lt)
