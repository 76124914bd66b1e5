-- ===== src/Lobby/Hosting.antt =====
-- network/lobby/lobby.go: the methods of a Lobby that its host calls, and the handlers of its
-- players' packets. Each takes slotmut, so a run of the lobby is a sequence of them.
use gowarcraft.Prelude.{
  ℕ, ◌==◌, ◌&&◌, not, Bool, true, false, Option, some, none, leb, if◌then◌else◌, List, [], ◌∷◌,
  length, map,
}
use gowarcraft.W3gs.Slots.{SlotData}
use gowarcraft.Lobby.Slots.{
  Lobby, Result, ok, err, panic, LobbyError, lobby_locked, invalid_slot, get_slot, with_slot,
  slot_open, slot_closed, slot_occupied, custom_forces, fixed_settings, pid_to_sid,
  find_empty_team_slot, players_occupied, color_occupied,
}
use gowarcraft.Lobby.Changes.{
  Answer, accepted, refused, kicks, delete, swap_slots, reset_slot, change_slot_status, change_race,
  change_team, change_color, change_handicap, change_computer,
}

-- None is a panic.
abbrev pub Reply : Type 0
Reply = Option (Lobby × Answer)

abbrev pub answer : Lobby → Result Lobby → Reply
answer l (ok l') = some (l', accepted)
answer l (err e) = some (l, refused e)
answer l panic = none

-- The tests that the methods of the host make before they change a slot.
abbrev pub out_of_slots : Lobby → ℕ → Bool
out_of_slots l sid = leb (length l.slot_base.slots) sid

abbrev pub on_slot : Lobby → ℕ → Reply → Reply
on_slot l sid reply =
    if out_of_slots l sid
    then some (l, refused invalid_slot)
    else (if l.locked then some (l, refused lobby_locked) else reply)

abbrev pub on_taken_slot : Lobby → ℕ → Reply → Reply
on_taken_slot l sid reply = on_slot l sid (
    if (get_slot l.slots sid).slot_status == slot_occupied
    then reply
    else some (l, refused invalid_slot))

abbrev pub unless_equal : Lobby → ℕ → ℕ → Reply → Reply
unless_equal l v w reply = if v == w then some (l, accepted) else reply

abbrev pub restatus : ℕ → ℕ → SlotData → SlotData
restatus from to s = if s.slot_status == from then record s { slot_status = to } else s

unfoldable pub change_all_slots : Lobby → ℕ → ℕ → Reply
change_all_slots l from to =
    if l.locked
    then some (l, refused lobby_locked)
    else some (record l { slots = map (restatus from to) l.slots }, accepted)

abbrev pub open_all_slots : Lobby → Reply
open_all_slots l = change_all_slots l slot_closed slot_open

abbrev pub close_all_slots : Lobby → Reply
close_all_slots l = change_all_slots l slot_open slot_closed

unfoldable pub open_slot : Lobby → ℕ → Bool → Reply
open_slot l sid kick = on_slot l sid (some (change_slot_status l sid slot_open kick))

unfoldable pub close_slot : Lobby → ℕ → Bool → Reply
close_slot l sid kick = on_slot l sid (some (change_slot_status l sid slot_closed kick))

unfoldable pub host_swap_slots : Lobby → ℕ → ℕ → Reply
host_swap_slots l i j =
    if out_of_slots l i
    then some (l, refused invalid_slot)
    else on_slot l j (some (swap_slots l i j (not (custom_forces l)), accepted))

-- ShuffleSlots. The pairs are those that rand.Shuffle gives to its function.
abbrev pub is_occupied : SlotData → Bool
is_occupied s = s.slot_status == slot_occupied

abbrev pub shuffle_pair : Bool → Lobby → ℕ → ℕ → Lobby
shuffle_pair shuffle_teams l i j =
    let occupied = is_occupied (get_slot l.slots i) && is_occupied (get_slot l.slots j) in
    swap_slots l i j (not (custom_forces l) && occupied && not shuffle_teams)

unfoldable pub shuffle_pairs : Bool → Lobby → List (ℕ × ℕ) → Lobby
shuffle_pairs shuffle_teams l [] = l
shuffle_pairs shuffle_teams l ((i, j) ∷ pairs) =
    shuffle_pairs shuffle_teams (shuffle_pair shuffle_teams l i j) pairs

unfoldable pub shuffle_slots : Lobby → Bool → List (ℕ × ℕ) → Reply
shuffle_slots l shuffle_teams pairs =
    if l.locked
    then some (l, refused lobby_locked)
    else some (shuffle_pairs shuffle_teams l pairs, accepted)

unfoldable pub host_change_race : Lobby → ℕ → ℕ → Reply
host_change_race l sid r =
    on_taken_slot l sid
      (unless_equal l (get_slot l.slots sid).race r (answer l (change_race l sid r)))

unfoldable pub host_change_team : Lobby → ℕ → ℕ → Reply
host_change_team l sid t =
    on_taken_slot l sid
      (unless_equal l (get_slot l.slots sid).team t (answer l (change_team l sid t)))

unfoldable pub host_change_color : Lobby → ℕ → ℕ → Reply
host_change_color l sid c =
    on_taken_slot l sid
      (unless_equal l (get_slot l.slots sid).color c (answer l (change_color l sid c)))

-- The test compares the handicap with the color of the slot.
unfoldable pub host_change_handicap : Lobby → ℕ → ℕ → Reply
host_change_handicap l sid h =
    on_taken_slot l sid
      (unless_equal l (get_slot l.slots sid).color h (answer l (change_handicap l sid h)))

abbrev pub has_ai : ℕ → SlotData → Bool
has_ai ai s = is_occupied s && s.computer && s.computer_type == ai

unfoldable pub host_change_computer : Lobby → ℕ → ℕ → Reply
host_change_computer l sid ai =
    on_slot l sid
      (if has_ai ai (get_slot l.slots sid) then some (l, accepted) else change_computer l sid ai)

-- The lobby after join, whatever it returns.
abbrev pub joined : Lobby → Result (Lobby × Option ℕ) → Reply
joined l (ok (l', pid)) = some (l', accepted)
joined l (err e) = some (l, refused e)
joined l panic = none

-- A handler that looks up the slot of the player first.
abbrev pub at_player : Lobby → ℕ → (ℕ → Reply) → Reply
at_player l pid f = elim (pid_to_sid l pid) [ ok sid ↦ f sid | err e ↦ none | panic ↦ none ]

-- Close. The slots keep the ids of the players, until each player's onLeave.
unfoldable pub close_lobby : Lobby → Reply
close_lobby l = some (record l { players = [] }, accepted)

unfoldable pub on_leave : Lobby → ℕ → Reply
on_leave l pid =
    let l' = record l { players = delete pid l.players } in
    at_player l' pid (λ sid. some (reset_slot l' sid, accepted))

-- The download status comes from a quotient of floating-point numbers.
unfoldable pub on_map_state : Lobby → ℕ → ℕ → Reply
on_map_state l pid progress = at_player l pid (λ sid.
    some (with_slot l sid (record (get_slot l.slots sid) { download_status = progress }), accepted))

-- A request of a player that is refused has the player kicked, unless the error is one that may
-- happen.
abbrev pub is_harmless : LobbyError → LobbyError → Bool
is_harmless players_occupied players_occupied = true
is_harmless color_occupied color_occupied = true
is_harmless a b = false

abbrev pub kick_if : Bool → ℕ → LobbyError → Answer
kick_if true pid e = refused e
kick_if false pid e = kicks pid

abbrev pub judge : Lobby → ℕ → LobbyError → Result Lobby → Reply
judge l pid allowed (ok l') = some (l', accepted)
judge l pid allowed (err e) = some (l, kick_if (is_harmless allowed e) pid e)
judge l pid allowed panic = none

abbrev pub swap_to_team : Lobby → ℕ → Option ℕ → Reply
swap_to_team l pid none = some (l, accepted)
swap_to_team l pid (some new_sid) =
    at_player l pid (λ sid. some (swap_slots l sid new_sid false, accepted))

unfoldable pub on_team_change : Lobby → ℕ → ℕ → Reply
on_team_change l pid t =
    if l.locked
    then some (l, refused lobby_locked)
    else (if custom_forces l
        then swap_to_team l pid (find_empty_team_slot l t)
        else at_player l pid (λ sid. judge l pid players_occupied (change_team l sid t)))

unfoldable pub on_color_change : Lobby → ℕ → ℕ → Reply
on_color_change l pid c =
    if fixed_settings l
    then some (l, kicks pid)
    else (if l.locked
        then some (l, refused lobby_locked)
        else at_player l pid (λ sid. judge l pid color_occupied (change_color l sid c)))

unfoldable pub on_race_change : Lobby → ℕ → ℕ → Reply
on_race_change l pid r =
    if l.locked
    then some (l, refused lobby_locked)
    else at_player l pid (λ sid. judge l pid lobby_locked (change_race l sid r))

unfoldable pub on_handicap_change : Lobby → ℕ → ℕ → Reply
on_handicap_change l pid h =
    if fixed_settings l
    then some (l, kicks pid)
    else (if l.locked
        then some (l, refused lobby_locked)
        else at_player l pid (λ sid. judge l pid lobby_locked (change_handicap l sid h)))
