-- ===== src/Lobby/Examples.antt =====
-- A lobby of a small map.
use gowarcraft.Prelude.{
  ℕ, ◌≡◌, ◌≢◌, ◌≤◌, ◌∷◌, [], List, true, false, some, none, refl, arith, inl, if◌then◌else◌, ◌==◌,
}
use gowarcraft.W3gs.Slots.{SlotData, SlotInfo}
use gowarcraft.Prelude.{Bool}
use gowarcraft.Protocol.BitSet.{
  trailing_zeros, test_bit, set_bit, clear_bit, complement, insert, clear,
}
use gowarcraft.Lobby.Slots.{
  Lobby, new_lobby, ok, get_slot, count_if, has_pid, pid_to_sid, find_empty_slot, find_slot,
  init_slot, init_color, find_empty_color, available_colors, clear_colors, init_team, count_players,
  find_empty_team, team_set, find_empty_pid, player_set,
}
use gowarcraft.Lobby.Changes.{change_slot_status, delete, join, accepted, take_seat, Answer}
use gowarcraft.Lobby.Hosting.{close_lobby, open_slot, on_leave, host_change_handicap}
use gowarcraft.Lobby.Steps.{step, closes_lobby, opens, joins, leaves, asks_color, Reach, here, next}
use gowarcraft.Lobby.Invariant.{Inv, IsBase, occurrences}
use gowarcraft.Lobby.Invariant.Opening.{IsMap, Reach-new_lobby, step-ne-none}
use gowarcraft.Lobby.Seats.Ids.{IsJoined, join-IsJoined}
use gowarcraft.Lobby.Seats.Leaving.{on_leave-join}
use gowarcraft.Lobby.Seats.Failing.{join-leak}
use gowarcraft.Lobby.Locks.{step-locked}
use gowarcraft.Lobby.Bounds.{playing-bound, host_change_handicap-handicap}

abbrev open_base : ℕ → ℕ → SlotData
open_base team color = record {
  player_id = 0;
  download_status = 255;
  slot_status = 0;
  computer = false;
  team = team;
  color = color;
  race = 96;
  computer_type = 1;
  handicap = 100;
}

abbrev small_map : SlotInfo
small_map = record {
  slots = open_base 0 0 ∷ open_base 0 0 ∷ [];
  random_seed = 7;
  slot_layout = 0;
  num_players = 2;
}

abbrev taken_slot : ℕ → ℕ → SlotData
taken_slot pid team = record {
  player_id = pid;
  download_status = 255;
  slot_status = 2;
  computer = false;
  team = team;
  color = team;
  race = 96;
  computer_type = 0;
  handicap = 100;
}

abbrev lobby_of : List SlotData → List ℕ → Lobby
lobby_of slots players = record {
  slots = slots;
  slot_base = small_map;
  players = players;
  locked = false;
  obs_team = 24;
  color_set = 16777215;
}

abbrev lobby0 : Lobby
lobby0 = new_lobby 30 small_map

abbrev lobby1 : Lobby
lobby1 = lobby_of (taken_slot 1 0 ∷ open_base 0 0 ∷ []) (1 ∷ [])

-- The packets for the first player could not be sent.
abbrev leaked_lobby : Lobby
leaked_lobby = lobby_of (taken_slot 1 0 ∷ open_base 0 0 ∷ []) []

abbrev doubled_lobby : Lobby
doubled_lobby = lobby_of (taken_slot 1 0 ∷ taken_slot 1 1 ∷ []) (1 ∷ [])

small_map-IsMap : IsMap 30 small_map
small_map-IsMap = record {
  base = (open_base-IsBase, (open_base-IsBase, tt));
  few = omega arith;
  teams = omega arith;
}
  where
    open_base-IsBase : IsBase 24 (open_base 0 0)
    open_base-IsBase = record { color = omega arith; team = refl; free = refl }

new_lobby_lem : lobby0 ≡ lobby_of (open_base 0 0 ∷ open_base 0 0 ∷ []) []
unfolding new_lobby
new_lobby_lem = refl

first_join :
    (sent : Bool)
    → join sent lobby0 ≡ ok (if sent then lobby1 else leaked_lobby, if sent then some 1 else none)
unfolding new_lobby join take_seat find_empty_slot find_slot init_slot init_color find_empty_color
    available_colors clear_colors trailing_zeros test_bit init_team count_players count_if
    find_empty_team team_set complement find_empty_pid player_set
first_join true = refl
first_join false = refl

second_join : join true leaked_lobby ≡ ok (doubled_lobby, some 1)
unfolding join take_seat find_empty_slot find_slot init_slot init_color find_empty_color
    available_colors clear_colors clear clear_bit trailing_zeros test_bit init_team count_players
    count_if find_empty_team team_set insert set_bit complement find_empty_pid player_set
second_join = refl

first_step : step lobby0 (joins true) ≡ some (lobby1, accepted)
unfolding step
first_step = rw (first_join true) refl

reached : Reach lobby0 lobby1
reached = next (joins true) here refl first_step

lobby0-Inv : Inv lobby0
lobby0-Inv = Reach-new_lobby 30 small_map lobby0 small_map-IsMap here

Reach-new_lobby_example : Inv lobby1
Reach-new_lobby_example = Reach-new_lobby 30 small_map lobby1 small_map-IsMap reached

-- After Close and OpenSlot the onLeave of the player panics.
close_lobby_test : step lobby1 closes_lobby ≡ some (leaked_lobby, accepted)
unfolding step close_lobby
close_lobby_test = refl

open_slot_test :
    step leaked_lobby (opens 0 false)
    ≡ some (lobby_of (open_base 0 0 ∷ open_base 0 0 ∷ []) [], accepted)
unfolding step open_slot change_slot_status
open_slot_test = refl

on_leave_test : step (lobby_of (open_base 0 0 ∷ open_base 0 0 ∷ []) []) (leaves 1) ≡ none
unfolding step on_leave pid_to_sid find_slot delete
on_leave_test = refl

step-ne-none_example : step lobby1 (leaves 1) ≢ none
step-ne-none_example =
    step-ne-none 30 small_map lobby1 (leaves 1) small_map-IsMap reached (ground arith)

join-IsJoined_example : IsJoined lobby0 lobby1 1
join-IsJoined_example = join-IsJoined lobby0 lobby1 1 lobby0-Inv (first_join true)

on_leave-join_example : on_leave lobby1 1 ≡ some (lobby0, accepted)
unfolding new_lobby find_empty_slot find_slot
on_leave-join_example = on_leave-join lobby0 lobby1 0 1 lobby0-Inv refl refl (first_join true)

join-leak_example :
    (occurrences 1 lobby0.players ≡ 0) × (count_if (has_pid 1) doubled_lobby.slots ≡ 2)
join-leak_example =
    join-leak lobby0 leaked_lobby doubled_lobby 1 lobby0-Inv (first_join false) second_join

abbrev locked_lobby : Lobby
locked_lobby = record lobby1 { locked = true }

step-locked_example : (a : Answer) × (step locked_lobby (asks_color 1 4) ≡ some (locked_lobby, a))
step-locked_example = step-locked locked_lobby (asks_color 1 4) refl refl

playing-bound_example : count_players lobby1 ≤ 2
unfolding new_lobby test_bit count_players count_if
playing-bound_example =
    playing-bound lobby0 lobby1 true (some 1) 0 0 refl (omega arith) (omega arith)
      (inl (first_join true))

host_change_handicap-handicap_example :
    (get_slot lobby1.slots 0).handicap
    ≡ (if (get_slot lobby1.slots 0).color == 0 then (get_slot lobby1.slots 0).handicap else 0)
unfolding host_change_handicap
host_change_handicap-handicap_example =
    host_change_handicap-handicap lobby1 lobby1 0 0 (omega arith) refl
