-- ===== src/Lobby/Invariant/Opening.antt =====
-- Lobbies that NewLobby has made, and what was called on them since.
use gowarcraft.Prelude.{ℕ, ◌≤◌, ◌≡◌, none, All, List, [], ◌∷◌, length, arith, refl, ◌≢◌}
use gowarcraft.Protocol.BitSet.{ones}
use gowarcraft.W3gs.Slots.{SlotData, SlotInfo}
use gowarcraft.Lobby.Slots.{Lobby, count_if, has_pid, max_players, new_lobby}
use gowarcraft.Lobby.Hosting.{Reply}
use gowarcraft.Lobby.Steps.{Call, step, Allowed, Reach}
use gowarcraft.Lobby.Invariant.{Inv, IsSlot, IsBase, IsPid, is_seat}
use gowarcraft.Lobby.Invariant.Calls.{SafeReply, safe}
use gowarcraft.Lobby.Invariant.Reachable.{step-SafeReply, Reach-Inv}

-- The slots of a map: none is a player's, their colors and teams are small, and there are no more
-- of them than players.
pub record IsMap (version : ℕ) (info : SlotInfo) : Type 0 where
  pub base : All (IsBase (max_players version)) info.slots
  pub few : length info.slots ≤ max_players version
  pub teams : info.num_players ≤ 32

free_slots :
    (obs : ℕ) (slots : List SlotData)
    → All (IsBase obs) slots
    → All (IsSlot obs) slots
      × (count_if is_seat slots ≡ 0)
      × ((pid : ℕ) → IsPid pid → count_if (has_pid pid) slots ≡ 0)
unfolding count_if
free_slots obs [] h = (tt, refl, λ pid hp. refl)
free_slots obs (s ∷ slots) (h, hs) =
    let rest = free_slots obs slots hs in
    (
      (
        record {
          color = h.color;
          team = h.team;
          taken = λ e. ground (arith, e, h.free);
          human = λ e. ground (arith, e, h.free);
        },
        rest.0,
      ),
      ground (arith, h.free, rest.1),
      λ pid hp. ground (arith, h.free, hp, rest.2 pid hp),
    )

all_colors : (ones 32 16777215 ≡ 24) × (ones 32 4095 ≡ 12)
unfolding ones
all_colors = (refl, refl)

new_lobby-Inv : (version : ℕ) (info : SlotInfo) → IsMap version info → Inv (new_lobby version info)
unfolding new_lobby
new_lobby-Inv version info h =
    let free = free_slots (max_players version) info.slots h.base in
    record {
      same_length = refl;
      few = ground (arith, h.few);
      slots = free.0;
      base = h.base;
      teams = h.teams;
      colors = ground (arith, h.few, all_colors);
      members = tt;
      counted = ground (arith, free.1);
      seats = λ pid hp. ground (arith, free.2 pid hp);
      single = λ pid hp. omega arith;
    }

-- In every lobby that is reached from one of NewLobby by calls of which every join has its
-- packets sent and Close comes only when there is no player, with packets only from players that
-- have joined, for a map whose slots have no player's id, small colors and teams and are not
-- more than the players of the game version, each player has an id from 1 to 32 of its own and
-- exactly one slot, which is occupied and has no computer, no other slot has such an id, and the
-- slots keep small colors and teams.
pub Reach-new_lobby :
    (version : ℕ) (info : SlotInfo) (l : Lobby)
    → IsMap version info
    → Reach (new_lobby version info) l
    → Inv l
Reach-new_lobby version info l h r = Reach-Inv (new_lobby-Inv version info h) r

SafeReply-ne-none : {r : Reply} → SafeReply r → r ≢ none
SafeReply-ne-none (safe v) = λ e. ground (arith, e)

-- In every lobby that is reached from one of NewLobby by calls of which every join has its
-- packets sent and Close comes only when there is no player, with packets only from players that
-- have joined, for such a map, one more such call does not panic: the slot of a player that
-- sends a packet is found, and no bit set is given a member out of its range.
pub step-ne-none :
    (version : ℕ) (info : SlotInfo) (l : Lobby) (call : Call)
    → IsMap version info
    → Reach (new_lobby version info) l
    → Allowed l call
    → step l call ≢ none
step-ne-none version info l call h r a =
    SafeReply-ne-none (step-SafeReply l call (Reach-new_lobby version info l h r) a)
