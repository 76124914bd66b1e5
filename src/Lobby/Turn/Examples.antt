-- ===== src/Lobby/Turn/Examples.antt =====
-- The turns of a small queue.
use gowarcraft.Prelude.{ℕ, zero, suc, ◌≡◌, [], ◌∷◌, List, none, arith, length, refl}
use gowarcraft.Protocol.Go.{Bytes}
use gowarcraft.W3gs.TimeSlot.{PlayerAction}
use gowarcraft.Lobby.Turn.{on_game_action, send_turn}
use gowarcraft.Lobby.Turn.Splitting.{on_game_action-AllQueueable, AllQueueable}
use gowarcraft.Lobby.Turn.Sending.{IsTurn, send_turn-IsTurn, send_turn-none}

abbrev repeat : ℕ → Bytes
repeat zero = []
repeat (suc n) = 7 ∷ repeat n

length-repeat : (n : ℕ) → length (repeat n) ≡ n
length-repeat zero = refl
length-repeat (suc n) = omega (arith, length-repeat n)

-- Two of these do not fit one slot.
abbrev long_action : PlayerAction
long_action = record { player_id = 1; content = repeat 700 }

abbrev too_long_action : PlayerAction
too_long_action = record { player_id = 2; content = repeat 1191 }

abbrev queue : List PlayerAction
queue = long_action ∷ long_action ∷ []

on_game_action-AllQueueable_example : AllQueueable (on_game_action 3 (16 ∷ 255 ∷ []) queue)
on_game_action-AllQueueable_example =
    on_game_action-AllQueueable 3 (16 ∷ 255 ∷ []) queue
      (omega (arith, length-repeat 700), (omega (arith, length-repeat 700), tt))

send_turn-IsTurn_example : IsTurn 25 queue (send_turn 3 25 queue)
send_turn-IsTurn_example =
    send_turn-IsTurn 3 25 queue (omega arith)
      (omega (arith, length-repeat 700), (omega (arith, length-repeat 700), tt)) (omega arith)

send_turn-none_example : send_turn 1000 25 (too_long_action ∷ queue) ≡ none
send_turn-none_example =
    send_turn-none 1000 25 too_long_action queue (omega (arith, length-repeat 1191))
