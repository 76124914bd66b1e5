-- ===== src/Lobby/Changes.antt =====
-- network/lobby/lobby.go: the methods that change the slots of a lobby, with slotmut locked.
use gowarcraft.Prelude.{
  ℕ, ◌+◌, ◌%◌, ◌==◌, ◌&&◌, ◌||◌, not, Bool, true, false, Option, some, none, ltb, leb,
  if◌then◌else◌, List, [], ◌∷◌, set,
}
use gowarcraft.Protocol.BitSet.{test_bit, set_bit, ones, test}
use gowarcraft.W3gs.Slots.{SlotData}
use gowarcraft.Lobby.Slots.{
  Lobby, Result, ok, err, panic, ◌>>=◌, ◌>>◌, refuse_if, or_panic, or_err, LobbyError, full,
  lobby_locked, invalid_argument, players_occupied, slot_is_occupied, color_occupied, get_slot,
  with_slot, init_slot, find_empty_slot, find_empty_pid, slot_occupied, custom_forces,
  fixed_settings, count_players, available_colors, obs_disabled,
}

-- What a method returns besides the lobby: nil, an error, or nil after a player is kicked.
pub data Answer : Type 0 where
  accepted : Answer
  refused : LobbyError → Answer
  kicks : ℕ → Answer

abbrev pub contains : List ℕ → ℕ → Bool
contains [] pid = false
contains (p ∷ players) pid = p == pid || contains players pid

unfoldable pub delete : ℕ → List ℕ → List ℕ
delete pid [] = []
delete pid (p ∷ players) = if p == pid then delete pid players else p ∷ delete pid players

-- The part of join that seats a new player: locked, findEmptySlot, initSlot and findEmptyPID.
unfoldable pub take_seat : Lobby → Result (Lobby × ℕ)
take_seat l = do
  refuse_if l.locked lobby_locked
  sid ← or_err (find_empty_slot l) full
  seated ← init_slot l sid
  pid ← find_empty_pid seated
  ok (with_slot seated sid (record (get_slot seated.slots sid) { player_id = pid }), pid)

-- `sent` says whether the packets for the new player could be sent. If not, join returns the error,
-- and the slot stays as it is.
abbrev pub welcome : Bool → Lobby × ℕ → Result (Lobby × Option ℕ)
welcome true (l, pid) = ok (record l { players = pid ∷ l.players }, some pid)
welcome false (l, pid) = ok (l, none)

unfoldable pub join : Bool → Lobby → Result (Lobby × Option ℕ)
join sent l = take_seat l >>= welcome sent

-- swapSlots. The two slots are exchanged, and then some of their fields are exchanged back.
abbrev pub swap_team_back : Bool → SlotData → SlotData → SlotData
swap_team_back swap_teams a b = if swap_teams then a else record a { team = b.team }

abbrev pub swap_fixed_back : Bool → SlotData → SlotData → SlotData
swap_fixed_back fixed a b = if fixed then record a { color = b.color; handicap = b.handicap } else a

-- Race&RaceSelectable == 0
abbrev pub race_fixed : SlotData → Bool
race_fixed s = not (test_bit 6 s.race)

abbrev pub swap_race_back : SlotData → SlotData → SlotData
swap_race_back a b = if race_fixed a || race_fixed b then record a { race = b.race } else a

-- The slot `a` where `b` was.
abbrev pub moved : Bool → Bool → SlotData → SlotData → SlotData
moved fixed swap_teams a b =
    swap_race_back (swap_fixed_back fixed (swap_team_back swap_teams a b) b) b

unfoldable pub swap_slots : Lobby → ℕ → ℕ → Bool → Lobby
swap_slots l i j swap_teams =
    let a = get_slot l.slots i in
    let b = get_slot l.slots j in
    with_slot (with_slot l i (moved (fixed_settings l) swap_teams b a)) j
      (moved (fixed_settings l) swap_teams a b)

abbrev pub set_status : SlotData → ℕ → SlotData
set_status s status = record s { slot_status = status }

abbrev pub with_base : Lobby → ℕ → SlotData → Lobby
with_base l sid s = record l {
  slot_base = record l.slot_base { slots = set l.slot_base.slots sid s };
}

-- The computer's slot is reset.
abbrev pub reset_slot : Lobby → ℕ → Lobby
reset_slot l sid = with_slot l sid (get_slot l.slot_base.slots sid)

abbrev pub change_occupied : Lobby → ℕ → Bool → Lobby × Answer
change_occupied l sid kick =
    let pid = (get_slot l.slots sid).player_id in
    if contains l.players pid
    then (l, if kick then kicks pid else refused slot_is_occupied)
    else (reset_slot l sid, accepted)

unfoldable pub change_slot_status : Lobby → ℕ → ℕ → Bool → Lobby × Answer
change_slot_status l sid status kick =
    if status == slot_occupied
    then (l, refused invalid_argument)
    else (let l' = with_base l sid (set_status (get_slot l.slot_base.slots sid) status) in
        if (get_slot l.slots sid).slot_status == slot_occupied
        then change_occupied l' sid kick
        else (with_slot l' sid (set_status (get_slot l.slots sid) status), accepted))

-- RaceMask are the lowest six bits, RaceDemon is bit 4.
unfoldable pub change_race : Lobby → ℕ → ℕ → Result Lobby
change_race l sid r = do
  let s = get_slot l.slots sid
  refuse_if (race_fixed s || not (ones 6 r == 1) || test_bit 4 r) invalid_argument
  ok (with_slot l sid (record s { race = set_bit 6 r }))

unfoldable pub change_team : Lobby → ℕ → ℕ → Result Lobby
change_team l sid t = do
  refuse_if (custom_forces l) invalid_argument
  refuse_if (leb l.slot_base.num_players t && (l.obs_team == obs_disabled || not (t == l.obs_team)))
      invalid_argument
  let l' = with_slot l sid (record (get_slot l.slots sid) { team = t })
  refuse_if (ltb l.slot_base.num_players (count_players l' % 256)) players_occupied
  ok l'

unfoldable pub change_color : Lobby → ℕ → ℕ → Result Lobby
change_color l sid c = do
  refuse_if (leb 32 c) invalid_argument
  colors ← available_colors l
  free ← or_panic (test 32 colors (c + 1))
  refuse_if (not free) color_occupied
  ok (with_slot l sid (record (get_slot l.slots sid) { color = c }))

unfoldable pub change_handicap : Lobby → ℕ → ℕ → Result Lobby
change_handicap l sid h = do
  refuse_if (ltb 100 h) invalid_argument
  ok (with_slot l sid (record (get_slot l.slots sid) { handicap = h }))

-- The new slot of a computer, in a lobby where initSlot has filled the slot.
abbrev pub seat_computer : Lobby → ℕ → ℕ → Lobby
seat_computer l sid ai =
    with_slot l sid
      (record (get_slot l.slots sid) { download_status = 100; computer = true; computer_type = ai })

abbrev pub add_computer : Lobby → ℕ → ℕ → Lobby × Answer
add_computer l sid ai =
    if not (l.obs_team == obs_disabled) && (get_slot l.slot_base.slots sid).team == l.obs_team
    then (reset_slot l sid, refused players_occupied)
    else (seat_computer l sid ai, accepted)

abbrev pub change_ai : Lobby → ℕ → ℕ → Lobby × Answer
change_ai l sid ai =
    let s = get_slot l.slots sid in
    if s.computer
    then (with_slot l sid (record s { computer_type = ai }), accepted)
    else (l, refused slot_is_occupied)

-- An error of initSlot leaves the lobby as it was.
abbrev pub after_init : Lobby → Result Lobby → (Lobby → Lobby × Answer) → Option (Lobby × Answer)
after_init l (ok l') f = some (f l')
after_init l (err e) f = some (l, refused e)
after_init l panic f = none

unfoldable pub change_computer : Lobby → ℕ → ℕ → Option (Lobby × Answer)
change_computer l sid ai =
    if (get_slot l.slots sid).slot_status == slot_occupied
    then some (change_ai l sid ai)
    else after_init l (init_slot l sid) (λ l'. add_computer l' sid ai)
