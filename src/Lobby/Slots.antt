-- ===== src/Lobby/Slots.antt =====
-- network/lobby/lobby.go: the state of a lobby and the methods that need slotmut. What is sent to the
-- players and the events that are fired are left out; a Player is its id.
pub mod Laws
use gowarcraft.Prelude.{
  ℕ, zero, suc, ◌+◌, ◌-◌, ◌%◌, ◌==◌, ◌&&◌, ◌||◌, not, Bool, true, false, Option, some, none, ltb,
  leb, if◌then◌else◌, List, [], ◌∷◌, length, set,
}
use gowarcraft.Protocol.BitSet.{
  test_bit, set_bit, ones, trailing_zeros, complement, test, insert, clear,
}
use gowarcraft.W3gs.Slots.{SlotData, SlotInfo}

abbrev pub slot_open : ℕ
slot_open = 0

abbrev pub slot_closed : ℕ
slot_closed = 1

abbrev pub slot_occupied : ℕ
slot_occupied = 2

abbrev pub obs_disabled : ℕ
obs_disabled = 255

pub record Lobby : Type 0 where
  pub slots : List SlotData
  pub slot_base : SlotInfo
  pub players : List ℕ
  pub locked : Bool
  pub obs_team : ℕ
  pub color_set : ℕ

pub data LobbyError : Type 0 where
  full : LobbyError
  lobby_locked : LobbyError
  invalid_argument : LobbyError
  invalid_slot : LobbyError
  players_occupied : LobbyError
  slot_is_occupied : LobbyError
  color_occupied : LobbyError

pub data Result {ℓ} (A : Type ℓ) : Type ℓ where
  ok : A → Result A
  err : LobbyError → Result A
  panic : Result A

infixl 5 ◌>>=◌ ◌>>◌
abbrev pub ◌>>=◌ {ℓ κ} : {A : Type ℓ} {B : Type κ} → Result A → (A → Result B) → Result B
ok a >>= f = f a
err e >>= f = err e
panic >>= f = panic

abbrev pub ◌>>◌ {ℓ} : {B : Type ℓ} → Result (Unit {0}) → Result B → Result B
m >> k = m >>= λ _. k

abbrev pub refuse_if : Bool → LobbyError → Result (Unit {0})
refuse_if true e = err e
refuse_if false e = ok tt

abbrev pub or_panic {ℓ} : {A : Type ℓ} → Option A → Result A
or_panic none = panic
or_panic (some a) = ok a

abbrev pub or_err {ℓ} : {A : Type ℓ} → Option A → LobbyError → Result A
or_err none e = err e
or_err (some a) e = ok a

abbrev pub empty_slot : SlotData
empty_slot = record {
  player_id = 0;
  download_status = 0;
  slot_status = 0;
  computer = false;
  team = 0;
  color = 0;
  race = 0;
  computer_type = 0;
  handicap = 0;
}

-- The callers keep the index in range.
abbrev pub get_slot : List SlotData → ℕ → SlotData
get_slot [] i = empty_slot
get_slot (s ∷ slots) zero = s
get_slot (s ∷ slots) (suc i) = get_slot slots i

abbrev pub with_slot : Lobby → ℕ → SlotData → Lobby
with_slot l sid s = record l { slots = set l.slots sid s }

-- SlotLayout&LayoutCustomForces != 0 and SlotLayout&LayoutFixedPlayerSettings != 0
abbrev pub custom_forces : Lobby → Bool
custom_forces l = test_bit 0 l.slot_base.slot_layout

abbrev pub fixed_settings : Lobby → Bool
fixed_settings l = test_bit 1 l.slot_base.slot_layout

-- The loops that look for the first slot of a kind.
abbrev pub next_index : Option ℕ → Option ℕ
next_index none = none
next_index (some i) = some (suc i)

unfoldable pub find_slot : (SlotData → Bool) → List SlotData → Option ℕ
find_slot p [] = none
find_slot p (s ∷ slots) = if p s then some 0 else next_index (find_slot p slots)

abbrev pub has_pid : ℕ → SlotData → Bool
has_pid pid s = s.player_id == pid

abbrev pub is_open : SlotData → Bool
is_open s = s.slot_status == slot_open

unfoldable pub pid_to_sid : Lobby → ℕ → Result ℕ
pid_to_sid l pid = or_panic (find_slot (has_pid pid) l.slots)

unfoldable pub find_empty_slot : Lobby → Option ℕ
find_empty_slot l = find_slot is_open l.slots

unfoldable pub find_empty_team_slot : Lobby → ℕ → Option ℕ
find_empty_team_slot l team = find_slot (λ s. is_open s && s.team == team) l.slots

unfoldable pub player_set : ℕ → List ℕ → Result ℕ
player_set set [] = ok set
player_set set (pid ∷ players) = do set' ← or_panic (insert 32 set pid); player_set set' players

unfoldable pub find_empty_pid : Lobby → Result ℕ
find_empty_pid l = do set ← player_set 0 l.players; ok (trailing_zeros 32 (complement 32 set) + 1)

-- s.SlotStatus == SlotOccupied && s.Team != l.ObsTeam
abbrev pub is_playing : ℕ → SlotData → Bool
is_playing obs s = s.slot_status == slot_occupied && not (s.team == obs)

abbrev pub add_team : ℕ → SlotData → ℕ → Result ℕ
add_team obs s set = if is_playing obs s then or_panic (insert 32 set (s.team + 1)) else ok set

unfoldable pub team_set : ℕ → ℕ → List SlotData → Result ℕ
team_set obs set [] = ok set
team_set obs set (s ∷ slots) = do set' ← add_team obs s set; team_set obs set' slots

unfoldable pub find_empty_team : Lobby → Result ℕ
find_empty_team l = do
  teams ← team_set l.obs_team 0 l.slots
  ok (trailing_zeros 32 (complement 32 teams))

unfoldable pub count_if : (SlotData → Bool) → List SlotData → ℕ
count_if p [] = 0
count_if p (s ∷ slots) = (if p s then 1 else 0) + count_if p slots

unfoldable pub count_players : Lobby → ℕ
count_players l = count_if (is_playing l.obs_team) l.slots

abbrev pub clear_color : ℕ → SlotData → ℕ → Result ℕ
clear_color obs s set = if is_playing obs s then or_panic (clear 32 set (s.color + 1)) else ok set

unfoldable pub clear_colors : ℕ → ℕ → List SlotData → Result ℕ
clear_colors obs set [] = ok set
clear_colors obs set (s ∷ slots) = do set' ← clear_color obs s set; clear_colors obs set' slots

unfoldable pub available_colors : Lobby → Result ℕ
available_colors l = clear_colors l.obs_team l.color_set l.slots

unfoldable pub find_empty_color : Lobby → Result ℕ
find_empty_color l = do colors ← available_colors l; ok (trailing_zeros 32 colors)

-- The color and the team of initSlot.
unfoldable pub init_color : Lobby → SlotData → Result ℕ
init_color l base = if fixed_settings l then ok base.color else find_empty_color l

abbrev pub wanted_team : Lobby → Result ℕ
wanted_team l =
    if ltb (count_players l % 256) l.slot_base.num_players then find_empty_team l else ok l.obs_team

abbrev pub allowed_team : Lobby → ℕ → Result ℕ
allowed_team l t =
    if ltb t l.slot_base.num_players
    then ok t
    else (if l.obs_team == obs_disabled then err full else ok l.obs_team)

unfoldable pub init_team : Lobby → SlotData → Result ℕ
init_team l base = if custom_forces l then ok base.team else (wanted_team l >>= allowed_team l)

unfoldable pub init_slot : Lobby → ℕ → Result Lobby
init_slot l sid = do
  let base = get_slot l.slot_base.slots sid
  color ← init_color l base
  team ← init_team l base
  ok (
      with_slot l sid (record {
        player_id = 255;
        download_status = 255;
        slot_status = slot_occupied;
        computer = false;
        team = team;
        color = color;
        race = base.race;
        computer_type = 0;
        handicap = base.handicap;
      }))

-- NewLobby. Game versions from 29 on, and 0 for the newest, have 24 players.
abbrev pub max_players : ℕ → ℕ
max_players version = if version == 0 || leb 29 version then 24 else 12

unfoldable pub new_lobby : ℕ → SlotInfo → Lobby
new_lobby version info = record {
  slots = info.slots;
  slot_base = info;
  players = [];
  locked = false;
  obs_team = max_players version;
  color_set = if version == 0 || leb 29 version then 16777215 else 4095;
}
