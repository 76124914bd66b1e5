-- ===== src/Lobby/Turn/Sending.antt =====
-- The time slots that the game loop sends for the queue of one tick.
use gowarcraft.Prelude.{
  ℕ, zero, suc, ◌+◌, ◌-◌, ◌≤◌, ◌<◌, ◌≡◌, length, List, [], ◌∷◌, ◌++◌, Bool, true, false, Option,
  none, some, All, refl, ap, ◌∙◌, arith, IsU16,
}
use gowarcraft.W3gs.TimeSlot.{PlayerAction, TimeSlot}
use gowarcraft.W3gs.TimeSlot.RoundTrip.{actions_bytes, ValidTimeSlot}
use gowarcraft.Lobby.Turn.{mtu, split_from, split_actions}
use gowarcraft.Lobby.Turn.{send_turn}
use gowarcraft.Lobby.Turn.{slot_of, and_slot, while_queued}
use gowarcraft.Lobby.Turn.Splitting.{
  IsQueueable, split_from-append, split_from-size, split_actions-progress, split_from-taken,
  split_from-queue, Ends, no_more, more, EndsSplit, split_from-EndsSplit,
}

-- The actions of the slots, in the order in which they are sent.
abbrev pub carried : List TimeSlot → List PlayerAction
carried [] = []
carried (s ∷ slots) = s.actions ++ carried slots

-- All slots but the last one are fragments.
pub data EndsTurn : List TimeSlot → Type 0 where
  last : (s : TimeSlot) → s.fragment ≡ false → EndsTurn (s ∷ [])
  next :
      (s : TimeSlot) (slots : List TimeSlot)
      → s.fragment ≡ true
      → EndsTurn slots
      → EndsTurn (s ∷ slots)

-- A slot of the turn is a packet that can be sent, and exceeds the MTU by one byte at most.
pub record IsTurnSlot (inc : ℕ) (s : TimeSlot) : Type 0 where
  pub time_increment : s.time_increment_ms ≡ inc
  pub valid : ValidTimeSlot s
  pub short : 8 + length (actions_bytes s.actions) ≤ mtu + 1

-- The slots that stand for the whole queue.
pub data IsTurn (inc : ℕ) (actions : List PlayerAction) : Option (List TimeSlot) → Type 0 where
  sent :
      (slots : List TimeSlot)
      → carried slots ≡ actions
      → All (IsTurnSlot inc) slots
      → EndsTurn slots
      → IsTurn inc actions (some slots)

last_slot :
    (inc : ℕ) (actions taken : List PlayerAction)
    → taken ++ [] ≡ actions
    → IsTurnSlot inc (slot_of inc (record { taken = taken; fragment = false; left = [] }))
    → IsTurn inc actions
        (some (slot_of inc (record { taken = taken; fragment = false; left = [] }) ∷ []))
last_slot inc actions taken e h = sent _ e (h, tt) (last _ refl)

next_slot :
    (inc : ℕ) (actions taken left : List PlayerAction) (rest : Option (List TimeSlot))
    → taken ++ left ≡ actions
    → IsTurnSlot inc (slot_of inc (record { taken = taken; fragment = true; left = left }))
    → IsTurn inc left rest
    → IsTurn inc actions
        (and_slot (slot_of inc (record { taken = taken; fragment = true; left = left })) rest)
next_slot inc actions taken left _ e h (sent slots c hs ends) =
    sent _ (ap (λ l. taken ++ l) c ∙ e) (h, hs) (next _ slots refl ends)

add_slot :
    (inc : ℕ) (actions taken : List PlayerAction) (fragment : Bool) (left : List PlayerAction)
    (loop : List PlayerAction → Option (List TimeSlot))
    → Ends fragment left
    → taken ++ left ≡ actions
    → IsTurnSlot inc (slot_of inc (record { taken = taken; fragment = fragment; left = left }))
    → (fragment ≡ true → IsTurn inc left (loop left))
    → IsTurn inc actions (
        and_slot
          (slot_of inc (record { taken = taken; fragment = fragment; left = left }))
          (while_queued loop left))
add_slot inc actions taken _ _ loop no_more e h k = last_slot inc actions taken e h
add_slot inc actions taken _ _ loop (more a rest) e h k =
    next_slot inc actions taken (a ∷ rest) (loop (a ∷ rest)) e h (k refl)

slot_of-IsTurnSlot :
    (inc : ℕ) (actions : List PlayerAction)
    → IsU16 inc
    → All IsQueueable actions
    → IsTurnSlot inc (slot_of inc (split_actions actions))
slot_of-IsTurnSlot inc actions hi h = record {
  time_increment = refl;
  valid = record {
    time_increment_ms = hi;
    actions = split_from-taken 0 actions h;
    fits = omega (arith, split_from-size 0 actions (omega arith));
  };
  short = omega (arith, split_from-size 0 actions (omega arith));
}

-- For a queue of actions of at most 1190 bytes each and a time increment of sixteen bits, the
-- loop that sends the slots of one tick ends when it has more fuel than there are actions; its
-- slots together carry exactly the queue in order, all but the last are marked as fragments, and
-- each is a TimeSlot that can be serialized, of at most 1201 bytes.
pub send_turn-IsTurn :
    (fuel inc : ℕ) (actions : List PlayerAction)
    → IsU16 inc
    → All IsQueueable actions
    → length actions < fuel
    → IsTurn inc actions (send_turn fuel inc actions)
unfolding send_turn EndsSplit
send_turn-IsTurn zero inc actions hi h l = absurd (omega arith)
send_turn-IsTurn (suc fuel) inc actions hi h l =
    add_slot inc actions _ _ _ (send_turn fuel inc) (split_from-EndsSplit 0 actions)
      (split_from-append 0 actions) (slot_of-IsTurnSlot inc actions hi h)
      (λ e.
        send_turn-IsTurn fuel inc (split_actions actions).left hi (split_from-queue 0 actions h)
          (omega (arith, split_actions-progress actions h e)))

-- If the first action of the queue had more than 1190 bytes, the loop that sends the slots of
-- one tick would not end, whatever fuel it has.
pub send_turn-none :
    (fuel inc : ℕ) (a : PlayerAction) (actions : List PlayerAction)
    → mtu - 10 < length a.content
    → send_turn fuel inc (a ∷ actions) ≡ none
unfolding send_turn split_from
send_turn-none zero inc a actions h = refl
send_turn-none (suc fuel) inc a actions h = ground (arith, send_turn-none fuel inc a actions h)
