-- ===== src/Network/Events/Examples.antt =====
-- An emitter with three handlers of one topic and a handler of all topics.
use gowarcraft.Prelude.{ℕ, ◌==◌, ◌≡◌, Bool, true, false, if◌then◌else◌, List, [], ◌∷◌, arith, refl}
use gowarcraft.Network.Events.{
  Topic, EventArg, value, catch_all, Event, Handler, Emitter, Callbacks, same, add_handler, off,
  fire, new_event,
}
use gowarcraft.Network.Events.Ids.{IsDescending, IsRegistered, off-add_handler}
use gowarcraft.Network.Events.Spent.{AllSpent, fire-IsSpent}
use gowarcraft.Network.Events.Fair.{IsFair, fire-IsFair}
use gowarcraft.Network.Events.Pool.{Move, takes, returns, moves, idle, IsFresh, moves-IsFresh}

abbrev ping : EventArg
ping = value (80 ∷ []) 3

abbrev handler : ℕ → Bool → ℕ → Handler
handler id once callback = record { id = id; once = once; callback = callback }

abbrev of_ping : List Handler
of_ping = handler 4 false 0 ∷ handler 3 true 1 ∷ handler 1 true 0 ∷ []

abbrev for_topic : Topic → List Handler
for_topic t =
    if same t (80 ∷ []) then of_ping else (if same t catch_all then handler 2 true 0 ∷ [] else [])

abbrev emitter : Emitter
emitter =
    (idle (record {
      id = 4;
      handlers = for_topic;
      emask = 0;
      epool = λ i. record { arg = ping; opt = []; prevent_next = false };
    })).emitter

abbrev event : Event
event = record { arg = ping; opt = []; prevent_next = false }

abbrev prevented : Event
prevented = record event { prevent_next = true }

-- Callback 1 prevents the next one.
abbrev quiet : Callbacks
quiet c ev e = if c == 1 then (record ev { prevent_next = true }, e) else (ev, e)

-- It also removes the handler of all topics and adds another.
abbrev busy : Callbacks
busy c ev e =
    if c == 1
    then (ev, (add_handler ping 0 true (off (record { ht = catch_all; id = 2 }) e)).0)
    else (ev, e)

quiet_lem : (c : ℕ) (x : Event) (y : Emitter) → (quiet c x y).1 ≡ y
quiet_lem c x y = ground arith

emitter-IsRegistered : IsRegistered emitter
emitter-IsRegistered t = by_topic (same t (80 ∷ [])) (same t catch_all)
  where
    by_topic :
        (a b : Bool)
        → IsDescending 5 (if a then of_ping else (if b then handler 2 true 0 ∷ [] else []))
    by_topic true b = (omega arith, (omega arith, (omega arith, tt)))
    by_topic false true = (omega arith, tt)
    by_topic false false = tt

off-add_handler_example :
    (off (add_handler ping 6 true emitter).1 (add_handler ping 6 true emitter).0).handlers (80 ∷ [])
    ≡ for_topic (80 ∷ [])
off-add_handler_example =
    off-add_handler ping 6 true emitter (80 ∷ []) emitter-IsRegistered (omega arith)

fire-IsSpent_example : AllSpent (80 ∷ []) (fire busy (80 ∷ []) of_ping event emitter)
fire-IsSpent_example =
    fire-IsSpent busy (80 ∷ []) 5 of_ping event emitter
      (omega arith, (omega arith, (omega arith, tt)))

fire-IsFair_example :
    IsFair
      (80 ∷ [])
      (for_topic (80 ∷ []))
      emitter
      (fire quiet (80 ∷ []) (for_topic (80 ∷ [])) event emitter)
fire-IsFair_example =
    fire-IsFair quiet (80 ∷ []) 5 event emitter quiet_lem refl (emitter-IsRegistered (80 ∷ []))

-- Two events are taken, the first with a stale mask as well, and the first is given back.
abbrev busy_pool : List Move
busy_pool = takes 0 ∷ takes 0 ∷ takes 1 ∷ returns 0 prevented ∷ []

moves-IsFresh_example :
    IsFresh (moves busy_pool (idle emitter)) (new_event 2 (moves busy_pool (idle emitter)).emitter)
moves-IsFresh_example = moves-IsFresh emitter busy_pool 2
