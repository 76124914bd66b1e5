-- ===== src/Network/Events.antt =====
-- network/events.go: the emitter of events, its handlers and the pool of its events.
pub mod Ids
pub mod Firing
pub mod Spent
pub mod Fair
pub mod Pool
pub mod Whole
mod Examples
use gowarcraft.Prelude.{
  ℕ, ◌+◌, ◌%◌, ◌^◌, ◌==◌, ◌&&◌, ◌||◌, ◌++◌, not, Bool, true, false, ltb, if◌then◌else◌, List, [],
  ◌∷◌,
}
use gowarcraft.Protocol.BitSet.{set_bit, clear_bit, complement, trailing_zeros}

-- The strings of topics, as bytes.
abbrev pub Topic : Type 0
Topic = List ℕ

unfoldable pub same : Topic → Topic → Bool
same [] [] = true
same [] (c ∷ t) = false
same (b ∷ s) [] = false
same (b ∷ s) (c ∷ t) = b == c && same s t

-- What an event is about: nil, a Topic literal, or a value, of which the topic is the type's name.
pub data EventArg : Type 0 where
  nil : EventArg
  topic_literal : Topic → EventArg
  value : (type_name : Topic) (contents : ℕ) → EventArg

abbrev pub catch_all : Topic
catch_all = 42 ∷ []

abbrev pub topic : EventArg → Topic
topic nil = catch_all
topic (topic_literal s) = s
topic (value type_name contents) = type_name

pub record Event : Type 0 where
  pub arg : EventArg
  pub opt : List EventArg
  pub prevent_next : Bool

abbrev pub empty_event : Event
empty_event = record { arg = nil; opt = []; prevent_next = false }

-- A callback is named by a number; what it does is a parameter of the functions that call it.
pub record Handler : Type 0 where
  pub id : ℕ
  pub once : Bool
  pub callback : ℕ

-- A nil map, or a key that is missing, is an empty list of handlers.
pub record Emitter : Type 0 where
  pub id : ℕ
  pub handlers : Topic → List Handler
  pub emask : ℕ
  pub epool : ℕ → Event

pub record EventId : Type 0 where
  pub ht : Topic
  pub id : ℕ

abbrev pub set_handlers : Topic → List Handler → Emitter → Emitter
set_handlers ht arr e = record e { handlers = λ t. if same t ht then arr else e.handlers t }

unfoldable pub add_handler : EventArg → ℕ → Bool → Emitter → Emitter × EventId
add_handler a callback once e =
    let id : ℕ = (e.id + 1) % 2 ^ 32 in
    let ht = topic a in
    (
      set_handlers ht (record { id = id; once = once; callback = callback } ∷ e.handlers ht)
          (record e { id = id }),
      record { ht = ht; id = id },
    )

-- On and Once.
abbrev pub on : EventArg → ℕ → Emitter → Emitter × EventId
on a callback e = add_handler a callback false e

abbrev pub once : EventArg → ℕ → Emitter → Emitter × EventId
once a callback e = add_handler a callback true e

unfoldable pub keep_if : (Handler → Bool) → List Handler → List Handler
keep_if p [] = []
keep_if p (h ∷ arr) = if p h then h ∷ keep_if p arr else keep_if p arr

unfoldable pub off : EventId → Emitter → Emitter
off i e = set_handlers i.ht (keep_if (λ h. not (h.id == i.id)) (e.handlers i.ht)) e

unfoldable pub off_all : EventArg → Emitter → Emitter
off_all a e = set_handlers (topic a) [] e

abbrev pub outlives : ℕ → ℕ → Handler → Bool
outlives min_id max_id h = ltb max_id h.id || ltb h.id min_id || not h.once

unfoldable pub off_once : Topic → ℕ → ℕ → Emitter → Emitter
off_once ht min_id max_id e = set_handlers ht (keep_if (outlives min_id max_id) (e.handlers ht)) e

-- newEvent: `m` is the mask that was loaded before the mask is compared and swapped. 0xFF is the
-- number of an event that is not in the pool.
abbrev pub heap : ℕ
heap = 255

abbrev pub pool_size : ℕ
pool_size = 16

unfoldable pub new_event : ℕ → Emitter → Emitter × (Event × ℕ)
new_event m e =
    let b = trailing_zeros 16 (complement 32 m) in
    if ltb b pool_size && e.emask == m
    then (record e { emask = set_bit b m }, (e.epool b, b))
    else (e, (empty_event, heap))

abbrev pub set_event : ℕ → Event → Emitter → Emitter
set_event b ev e = record e { epool = λ i. if i == b then ev else e.epool i }

-- The loop of freeEvent ends with the mask that it has loaded still in place.
unfoldable pub free_event : ℕ → Emitter → Emitter
free_event b e =
    if ltb b pool_size
    then record (set_event b empty_event e) { emask = clear_bit b e.emask }
    else e

-- The variables of the loop of fire, and the handlers that have been called.
pub record Loop : Type 0 where
  pub prevent : Bool
  pub once : Bool
  pub min_id : ℕ
  pub event : Event
  pub emitter : Emitter
  pub called : List Handler

-- A callback may change the event and, through its methods, the emitter.
abbrev pub Callbacks : Type 0
Callbacks = ℕ → Event → Emitter → Event × Emitter

abbrev pub call_handler : Callbacks → Handler → Loop → Loop
call_handler call h s =
    let (event, emitter) = call h.callback s.event s.emitter in
    record {
      prevent = event.prevent_next;
      once = h.once || s.once;
      min_id = h.id;
      event = event;
      emitter = emitter;
      called = s.called ++ h ∷ [];
    }

unfoldable pub fire_loop : Callbacks → List Handler → Loop → Loop
fire_loop call [] s = s
fire_loop call (h ∷ arr) s =
    let s' = call_handler call h s in if s'.prevent then s' else fire_loop call arr s'

abbrev pub start_loop : Event → Emitter → Loop
start_loop ev e = record {
  prevent = false;
  once = false;
  min_id = 4294967295;
  event = ev;
  emitter = e;
  called = [];
}

abbrev pub drop_once : Topic → ℕ → Loop → Loop
drop_once ht max_id s =
    if s.once then record s { emitter = off_once ht s.min_id max_id s.emitter } else s

unfoldable pub fire : Callbacks → Topic → List Handler → Event → Emitter → Loop
fire call ht [] ev e = start_loop ev e
fire call ht (h ∷ arr) ev e = drop_once ht h.id (fire_loop call (h ∷ arr) (start_loop ev e))

abbrev pub fire_topic : Callbacks → Topic → List Handler → Loop → Loop
fire_topic call ht arr s =
    if not s.prevent && not (same ht catch_all) then fire call ht arr s.event s.emitter else s

-- The event stands in the pool as the callbacks have left it, until it is freed.
abbrev pub leave_event : ℕ → Event → Emitter → Emitter
leave_event b ev e = if ltb b pool_size then set_event b ev e else e

abbrev pub finish : ℕ → Loop → Emitter × Bool
finish b s = (free_event b (leave_event b s.event s.emitter), s.prevent)

abbrev pub is_empty : List Handler → Bool
is_empty [] = true
is_empty (h ∷ arr) = false

-- Fire, where no other goroutine changes the mask between its load and the swap.
unfoldable pub fire_event : Callbacks → EventArg → List EventArg → Emitter → Emitter × Bool
fire_event call a opt e =
    let ht = topic a in
    let arr1 = e.handlers catch_all in
    let arr2 = e.handlers ht in
    if is_empty arr1 && is_empty arr2
    then (e, false)
    else (let (e', (ev, b)) = new_event e.emask e in
        finish b (
          fire_topic call ht arr2 (fire call catch_all arr1 (record ev { arg = a; opt = opt }) e')))
