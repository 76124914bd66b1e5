-- ===== src/Lobby/Turn.antt =====
-- network/lobby/game.go: the queue of actions, and the time slots that the game loop sends for it.
pub mod Splitting
pub mod Sending
mod Examples
use gowarcraft.Prelude.{
  ℕ, zero, suc, ◌+◌, ◌-◌, ltb, length, List, [], ◌∷◌, Bool, true, false, Option, none, some,
}
use gowarcraft.Prelude.{if◌then◌else◌, ◌++◌}
use gowarcraft.Protocol.Go.{Bytes}
use gowarcraft.W3gs.TimeSlot.{PlayerAction, TimeSlot}

abbrev pub mtu : ℕ
mtu = 1200

-- What onGameAction does to the queue of a player's game: it kicks the player, or enqueues.
pub data Handled : Type 0 where
  kicked : Handled
  queued : List PlayerAction → Handled

unfoldable pub enqueue_action : PlayerAction → List PlayerAction → List PlayerAction
enqueue_action a actions = actions ++ a ∷ []

unfoldable pub on_game_action : ℕ → Bytes → List PlayerAction → Handled
on_game_action player_id content actions =
    if ltb (mtu - 10) (length content)
    then kicked
    else queued (enqueue_action (record { player_id = player_id; content = content }) actions)

-- The results of splitActions, and the queue that it leaves.
pub record Split : Type 0 where
  pub taken : List PlayerAction
  pub fragment : Bool
  pub left : List PlayerAction

abbrev pub take_action : PlayerAction → Split → Split
take_action a s = record { taken = a ∷ s.taken; fragment = s.fragment; left = s.left }

abbrev pub action_size : PlayerAction → ℕ
action_size a = length a.content + 3

-- The loop from the first action that is not counted in `total` yet.
unfoldable pub split_from : ℕ → List PlayerAction → Split
split_from total [] = record { taken = []; fragment = false; left = [] }
split_from total (a ∷ actions) =
    let rest = split_from (total + action_size a) actions in
    if ltb mtu (total + action_size a + 7)
    then record { taken = []; fragment = true; left = a ∷ actions }
    else take_action a rest

abbrev pub split_actions : List PlayerAction → Split
split_actions actions = split_from 0 actions

abbrev pub slot_of : ℕ → Split → TimeSlot
slot_of inc s = record { fragment = s.fragment; time_increment_ms = inc; actions = s.taken }

abbrev pub and_slot : TimeSlot → Option (List TimeSlot) → Option (List TimeSlot)
and_slot slot none = none
and_slot slot (some slots) = some (slot ∷ slots)

-- The loop of gameloop that sends the slots of one tick: it goes on while the queue is not empty.
-- It is none where the fuel runs out.
abbrev pub while_queued :
    (List PlayerAction → Option (List TimeSlot)) → List PlayerAction → Option (List TimeSlot)
while_queued loop [] = some []
while_queued loop (a ∷ actions) = loop (a ∷ actions)

unfoldable pub send_turn : ℕ → ℕ → List PlayerAction → Option (List TimeSlot)
send_turn zero inc actions = none
send_turn (suc fuel) inc actions =
    let s = split_actions actions in
    and_slot (slot_of inc s) (while_queued (send_turn fuel inc) s.left)
