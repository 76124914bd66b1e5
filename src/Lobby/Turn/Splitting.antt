-- ===== src/Lobby/Turn/Splitting.antt =====
-- splitActions: what it takes off the queue and what it leaves.
use gowarcraft.Prelude.{
  ℕ, ◌+◌, ◌-◌, ◌≤◌, ◌<◌, ◌≡◌, length, List, [], ◌∷◌, ◌++◌, Bool, true, false, All, All-append, refl,
  arith, ltb, if◌then◌else◌,
}
use gowarcraft.Protocol.Go.{Bytes}
use gowarcraft.W3gs.TimeSlot.{PlayerAction}
use gowarcraft.W3gs.TimeSlot.RoundTrip.{actions_bytes, length-actions_bytes, IsShort}
use gowarcraft.Lobby.Turn.{mtu, Split, split_from, split_actions, action_size}
use gowarcraft.Lobby.Turn.{Handled, kicked, queued, on_game_action, enqueue_action}

-- The actions that onGameAction lets into the queue.
abbrev pub IsQueueable : PlayerAction → Type 0
IsQueueable a = length a.content ≤ mtu - 10

abbrev pub AllQueueable : Handled → Type 0
AllQueueable kicked = Unit
AllQueueable (queued actions) = All IsQueueable actions

-- onGameAction keeps every action of the queue at 1190 bytes or less, if all were, or else kicks
-- the player.
pub on_game_action-AllQueueable :
    (player_id : ℕ) (content : Bytes) (actions : List PlayerAction)
    → All IsQueueable actions
    → AllQueueable (on_game_action player_id content actions)
unfolding on_game_action enqueue_action
on_game_action-AllQueueable player_id content actions h = ground (
  arith,
  All-append IsQueueable actions (record { player_id = player_id; content = content } ∷ []) h,
)

pub split_from-append :
    (total : ℕ) (actions : List PlayerAction)
    → (split_from total actions).taken ++ (split_from total actions).left ≡ actions
unfolding split_from
split_from-append total [] = refl
split_from-append total (a ∷ actions) =
    ground (arith, split_from-append (total + action_size a) actions)

length-no_actions : length (actions_bytes []) ≡ 0
unfolding actions_bytes
length-no_actions = refl

pub split_from-size :
    (total : ℕ) (actions : List PlayerAction)
    → total + 7 ≤ mtu
    → total + 7 + length (actions_bytes (split_from total actions).taken) ≤ mtu
unfolding split_from
split_from-size total [] h = ground (arith, length-no_actions)
split_from-size total (a ∷ actions) h = ground (
  arith,
  length-no_actions,
  split_from-size (total + action_size a) actions,
  length-actions_bytes a (split_from (total + action_size a) actions).taken,
)

pub split_from-left :
    (total : ℕ) (actions : List PlayerAction)
    → length (split_from total actions).left ≤ length actions
unfolding split_from
split_from-left total [] = omega arith
split_from-left total (a ∷ actions) =
    ground (arith, split_from-left (total + action_size a) actions)

pub split_actions-progress :
    (actions : List PlayerAction)
    → All IsQueueable actions
    → (split_actions actions).fragment ≡ true
    → length (split_actions actions).left < length actions
unfolding split_from
split_actions-progress [] h e = ground arith
split_actions-progress (a ∷ actions) h e = ground (arith, split_from-left (action_size a) actions)

pub split_from-taken :
    (total : ℕ) (actions : List PlayerAction)
    → All IsQueueable actions
    → All IsShort (split_from total actions).taken
unfolding split_from
split_from-taken total [] h = tt
split_from-taken total (a ∷ actions) (h, hs) =
    ground (arith, split_from-taken (total + action_size a) actions hs)

pub split_from-queue :
    (total : ℕ) (actions : List PlayerAction)
    → All IsQueueable actions
    → All IsQueueable (split_from total actions).left
unfolding split_from
split_from-queue total [] h = tt
split_from-queue total (a ∷ actions) (h, hs) =
    ground (arith, split_from-queue (total + action_size a) actions hs)

-- A fragment is sent exactly when something is left.
pub data Ends : Bool → List PlayerAction → Type 0 where
  no_more : Ends false []
  more : (a : PlayerAction) (actions : List PlayerAction) → Ends true (a ∷ actions)

unfoldable pub EndsSplit : Split → Type 0
EndsSplit s = Ends s.fragment s.left

if-EndsSplit : (c : Bool) (s t : Split) → EndsSplit s → EndsSplit t → EndsSplit (if c then s else t)
if-EndsSplit true s t hs ht = hs
if-EndsSplit false s t hs ht = ht

pub split_from-EndsSplit :
    (total : ℕ) (actions : List PlayerAction) → EndsSplit (split_from total actions)
unfolding split_from EndsSplit
split_from-EndsSplit total [] = no_more
split_from-EndsSplit total (a ∷ actions) =
    if-EndsSplit (ltb mtu (total + action_size a + 7)) _ _ (more a actions)
      (split_from-EndsSplit (total + action_size a) actions)
