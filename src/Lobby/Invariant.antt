-- ===== src/Lobby/Invariant.antt =====
-- What holds of a lobby between two calls: players and slots belong together.
pub mod Sets
pub mod Changes
pub mod Joining
pub mod Slots
pub mod Status
pub mod Calls
pub mod Computers
pub mod Reachable
pub mod Opening
use gowarcraft.Prelude.{
  ℕ, zero, suc, ◌+◌, ◌==◌, ◌≤◌, ◌<◌, ◌≡◌, ◌&&◌, ◌||◌, Bool, true, false, Option, some, none, ltb,
  leb, All, if◌then◌else◌, List, [], ◌∷◌, length, set, arith, refl, ◌≢◌,
}
use gowarcraft.Protocol.BitSet.{ones}
use gowarcraft.W3gs.Slots.{SlotData, SlotInfo}
use gowarcraft.Lobby.Slots.{Lobby, count_if, has_pid, slot_occupied, get_slot, with_slot}
use gowarcraft.Lobby.Slots.Laws.{
  bit, length-set, get_slot-set, All-get_slot, All-set, count_if-set, count_if-swap,
}

-- The ids that findEmptyPID gives.
abbrev pub IsPid : ℕ → Type 0
IsPid pid = (1 ≤ pid) × (pid ≤ 32)

abbrev pub is_seat : SlotData → Bool
is_seat s = leb 1 s.player_id && leb s.player_id 32

abbrev pub occurrences : ℕ → List ℕ → ℕ
occurrences pid [] = 0
occurrences pid (p ∷ players) = bit (p == pid) + occurrences pid players

-- A slot with the id of a player is occupied and has no computer.
pub record IsSlot (obs : ℕ) (s : SlotData) : Type 0 where
  pub color : s.color < 32
  pub team : (ltb s.team 32 || s.team == obs) ≡ true
  pub taken : is_seat s ≡ true → s.slot_status ≡ slot_occupied
  pub human : is_seat s ≡ true → s.computer ≡ false

pub record IsBase (obs : ℕ) (s : SlotData) : Type 0 where
  pub color : s.color < 32
  pub team : (ltb s.team 32 || s.team == obs) ≡ true
  pub free : is_seat s ≡ false

pub record Inv (l : Lobby) : Type 0 where
  pub same_length : length l.slots ≡ length l.slot_base.slots
  pub few : length l.slots ≤ 32
  pub slots : All (IsSlot l.obs_team) l.slots
  pub base : All (IsBase l.obs_team) l.slot_base.slots
  pub teams : l.slot_base.num_players ≤ 32
  pub colors : length l.slots ≤ ones 32 l.color_set
  pub members : All IsPid l.players
  pub counted : length l.players ≡ count_if is_seat l.slots
  pub seats : (pid : ℕ) → IsPid pid → occurrences pid l.players ≡ count_if (has_pid pid) l.slots
  pub single : (pid : ℕ) → IsPid pid → occurrences pid l.players ≤ 1

-- One slot is overwritten, and the players change with it.
pub update-Inv :
    (l : Lobby) (sid : ℕ) (s : SlotData) (players : List ℕ)
    → Inv l
    → sid < length l.slots
    → IsSlot l.obs_team s
    → All IsPid players
    → length players + bit (is_seat (get_slot l.slots sid)) ≡ length l.players + bit (is_seat s)
    → ((pid : ℕ)
        → IsPid pid
        → occurrences pid players + bit (has_pid pid (get_slot l.slots sid))
          ≡ occurrences pid l.players + bit (has_pid pid s))
    → ((pid : ℕ) → IsPid pid → occurrences pid players ≤ 1)
    → Inv (record (with_slot l sid s) { players = players })
update-Inv l sid s players v h hs members counted seats single = record {
  same_length = omega (arith, v.same_length, length-set l.slots sid s);
  few = omega (arith, v.few, length-set l.slots sid s);
  slots = All-set (IsSlot l.obs_team) l.slots sid s v.slots hs;
  base = v.base;
  teams = v.teams;
  colors = omega (arith, v.colors, length-set l.slots sid s);
  members = members;
  counted = omega (arith, counted, v.counted, count_if-set is_seat l.slots sid s h);
  seats = λ pid hp.
      omega (arith, seats pid hp, v.seats pid hp, count_if-set (has_pid pid) l.slots sid s h);
  single = single;
}

-- The slot keeps its player.
pub put-Inv :
    (l : Lobby) (sid : ℕ) (s : SlotData)
    → Inv l
    → sid < length l.slots
    → IsSlot l.obs_team s
    → s.player_id ≡ (get_slot l.slots sid).player_id
    → Inv (with_slot l sid s)
put-Inv l sid s v h hs e =
    update-Inv l sid s l.players v h hs v.members (rw e) (λ pid hp. rw e) v.single

-- The slot had no player, and gets none.
pub refill-Inv :
    (l : Lobby) (sid : ℕ) (s : SlotData)
    → Inv l
    → sid < length l.slots
    → IsSlot l.obs_team s
    → is_seat (get_slot l.slots sid) ≡ false
    → is_seat s ≡ false
    → Inv (with_slot l sid s)
refill-Inv l sid s v h hs e e' =
    update-Inv l sid s l.players v h hs v.members (rw (e, e')) (λ pid hp. ground arith) v.single

pub swap-Inv :
    (l : Lobby) (i j : ℕ) (x y : SlotData)
    → Inv l
    → i < length l.slots
    → j < length l.slots
    → IsSlot l.obs_team x
    → IsSlot l.obs_team y
    → x.player_id ≡ (get_slot l.slots j).player_id
    → y.player_id ≡ (get_slot l.slots i).player_id
    → Inv (with_slot (with_slot l i x) j y)
swap-Inv l i j x y v hi hj hx hy ex ey = record {
  same_length =
      omega (arith, v.same_length, length-set l.slots i x, length-set (set l.slots i x) j y);
  few = omega (arith, v.few, length-set l.slots i x, length-set (set l.slots i x) j y);
  slots =
      All-set (IsSlot l.obs_team) (set l.slots i x) j y
        (All-set (IsSlot l.obs_team) l.slots i x v.slots hx) hy;
  base = v.base;
  teams = v.teams;
  colors = omega (arith, v.colors, length-set l.slots i x, length-set (set l.slots i x) j y);
  members = v.members;
  counted = omega (arith, v.counted, count_if-swap is_seat l.slots i j x y hi hj (rw ex) (rw ey));
  seats = λ pid hp.
      omega
        (arith, v.seats pid hp, count_if-swap (has_pid pid) l.slots i j x y hi hj (rw ex) (rw ey));
  single = v.single;
}
