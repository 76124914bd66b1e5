-- ===== src/Lobby/Steps.antt =====
-- The calls that change a lobby, as one step function and as the lobbies that can be reached.
use gowarcraft.Prelude.{ℕ, Bool, true, some, List, [], length, All, ◌<◌, ◌≡◌}
use gowarcraft.Lobby.Slots.{Lobby}
use gowarcraft.Lobby.Changes.{Answer, accepted, join}
use gowarcraft.Lobby.Hosting.{
  Reply, joined, close_lobby, open_all_slots, close_all_slots, open_slot, close_slot,
  host_swap_slots, shuffle_slots, host_change_race, host_change_team, host_change_color,
  host_change_handicap, host_change_computer, on_leave, on_map_state, on_team_change,
  on_color_change, on_race_change, on_handicap_change,
}
use gowarcraft.Lobby.Invariant.{occurrences}

pub data Call : Type 0 where
  locks : Bool → Call
  closes_lobby : Call
  opens_all : Call
  closes_all : Call
  opens : ℕ → Bool → Call
  closes : ℕ → Bool → Call
  swaps : ℕ → ℕ → Call
  shuffles : Bool → List (ℕ × ℕ) → Call
  changes_race : ℕ → ℕ → Call
  changes_team : ℕ → ℕ → Call
  changes_color : ℕ → ℕ → Call
  changes_handicap : ℕ → ℕ → Call
  changes_computer : ℕ → ℕ → Call
  joins : Bool → Call
  leaves : ℕ → Call
  reports_map : ℕ → ℕ → Call
  asks_team : ℕ → ℕ → Call
  asks_color : ℕ → ℕ → Call
  asks_race : ℕ → ℕ → Call
  asks_handicap : ℕ → ℕ → Call

unfoldable pub step : Lobby → Call → Reply
step l (locks b) = some (record l { locked = b }, accepted)
step l closes_lobby = close_lobby l
step l opens_all = open_all_slots l
step l closes_all = close_all_slots l
step l (opens sid kick) = open_slot l sid kick
step l (closes sid kick) = close_slot l sid kick
step l (swaps i j) = host_swap_slots l i j
step l (shuffles shuffle_teams pairs) = shuffle_slots l shuffle_teams pairs
step l (changes_race sid r) = host_change_race l sid r
step l (changes_team sid t) = host_change_team l sid t
step l (changes_color sid c) = host_change_color l sid c
step l (changes_handicap sid h) = host_change_handicap l sid h
step l (changes_computer sid ai) = host_change_computer l sid ai
step l (joins sent) = joined l (join sent l)
step l (leaves pid) = on_leave l pid
step l (reports_map pid progress) = on_map_state l pid progress
step l (asks_team pid t) = on_team_change l pid t
step l (asks_color pid c) = on_color_change l pid c
step l (asks_race pid r) = on_race_change l pid r
step l (asks_handicap pid h) = on_handicap_change l pid h

abbrev pub IsPlayer : Lobby → ℕ → Type 0
IsPlayer l pid = 0 < occurrences pid l.players

abbrev pub InRange : Lobby → ℕ × ℕ → Type 0
InRange l (i, j) = (i < length l.slots) × (j < length l.slots)

-- Packets come from players that have joined, and rand.Shuffle gives indices of slots. Two calls
-- that the code allows are left out: a join whose packets cannot be sent, and Close while there are
-- players.
abbrev pub Allowed : Lobby → Call → Type 0
Allowed l (shuffles shuffle_teams pairs) = All (InRange l) pairs
Allowed l closes_lobby = l.players ≡ []
Allowed l (joins sent) = sent ≡ true
Allowed l (leaves pid) = IsPlayer l pid
Allowed l (reports_map pid progress) = IsPlayer l pid
Allowed l (asks_team pid t) = IsPlayer l pid
Allowed l (asks_color pid c) = IsPlayer l pid
Allowed l (asks_race pid r) = IsPlayer l pid
Allowed l (asks_handicap pid h) = IsPlayer l pid
Allowed l call = Unit

pub data Reach (l : Lobby) : Lobby → Type 0 where
  here : Reach l l
  next :
      {k m : Lobby} {a : Answer} (call : Call)
      → Reach l k
      → Allowed k call
      → step k call ≡ some (m, a)
      → Reach l m
