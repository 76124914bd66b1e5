-- ===== src/Network/Events/Whole.antt =====
-- Fire as a whole.
use gowarcraft.Prelude.{
  ℕ, zero, suc, ◌/◌, ◌==◌, ◌≡◌, ◌&&◌, Bool, true, false, ltb, if◌then◌else◌, List, [], ◌∷◌, arith,
  refl, ◌∙◌,
}
use gowarcraft.Protocol.BitSet.{test_bit, set_bit, clear_bit, complement, trailing_zeros}
use gowarcraft.Protocol.BitSet.Laws.{test_bit-complement, test_bit-trailing_zeros}
use gowarcraft.Network.Events.{
  Topic, EventArg, topic, catch_all, Event, empty_event, Handler, Emitter, Loop, Callbacks,
  pool_size, new_event, free_event, off_once, call_handler, fire_loop, start_loop, fire, fire_topic,
  fire_event, heap, is_empty, finish,
}

clear_bit-set_bit : (i b : ℕ) → test_bit i b ≡ false → clear_bit i (set_bit i b) ≡ b
unfolding test_bit set_bit clear_bit
clear_bit-set_bit zero b h = ground (arith, h)
clear_bit-set_bit (suc i) b h = ground (arith, clear_bit-set_bit i (b / 2) h)

-- Callbacks that give back what they take from the pool.
abbrev pub IsBalanced : Callbacks → Type 0
IsBalanced call = (c : ℕ) (ev : Event) (e : Emitter) → (call c ev e).1.emask ≡ e.emask

module _ (call : Callbacks) (balanced : IsBalanced call) where
  fire_loop-emask :
      (arr : List Handler) (s : Loop) → (fire_loop call arr s).emitter.emask ≡ s.emitter.emask
  unfolding fire_loop
  fire_loop-emask [] s = refl
  fire_loop-emask (h ∷ arr) s =
      ground
        (arith, balanced h.callback s.event s.emitter, fire_loop-emask arr (call_handler call h s))

  fire-emask :
      (ht : Topic) (arr : List Handler) (ev : Event) (e : Emitter)
      → (fire call ht arr ev e).emitter.emask ≡ e.emask
  unfolding fire off_once
  fire-emask ht [] ev e = refl
  fire-emask ht (h ∷ arr) ev e = ground (arith, fire_loop-emask (h ∷ arr) (start_loop ev e))

  fire_topic-emask :
      (ht : Topic) (arr : List Handler) (s : Loop)
      → (fire_topic call ht arr s).emitter.emask ≡ s.emitter.emask
  fire_topic-emask ht arr s = ground (arith, fire-emask ht arr s.event s.emitter)

finish-emask :
    (b m : ℕ) (s : Loop)
    → (ltb b pool_size && test_bit b m) ≡ false
    → s.emitter.emask ≡ (if ltb b pool_size then set_bit b m else m)
    → (finish b s).0.emask ≡ m
unfolding free_event
finish-emask b m s h e = ground (arith, h, e, clear_bit-set_bit b m)

-- An event with the number of its slot, taken from an emitter with a mask.
abbrev pub IsTaken : ℕ → Emitter × (Event × ℕ) → Type 0
IsTaken m (e, (ev, b)) =
    (e.emask ≡ (if ltb b pool_size then set_bit b m else m))
    × ((ltb b pool_size && test_bit b m) ≡ false)

new_event-IsTaken : (e : Emitter) → IsTaken e.emask (new_event e.emask e)
unfolding new_event
new_event-IsTaken e = by_test (ltb b pool_size && e.emask == e.emask) refl
  where
    b : ℕ
    b = trailing_zeros 16 (complement 32 e.emask)

    by_test :
        (c : Bool)
        → (ltb b pool_size && e.emask == e.emask) ≡ c
        → IsTaken e.emask (
            if c
            then (record e { emask = set_bit b e.emask }, (e.epool b, b))
            else (e, (empty_event, heap)))
    by_test true h = (
      ground (arith, h),
      ground (
        arith,
        h,
        test_bit-trailing_zeros 16 (complement 32 e.emask),
        test_bit-complement 32 b e.emask,
      ),
    )
    by_test false h = (refl, refl)

-- Fire gives back the event that it has taken from the pool, whatever its handlers do to the
-- event and to the lists of handlers, if they give back those that they take themselves.
pub fire_event-emask :
    (call : Callbacks) (a : EventArg) (opt : List EventArg) (e : Emitter)
    → ((c : ℕ) (ev : Event) (x : Emitter) → (call c ev x).1.emask ≡ x.emask)
    → (fire_event call a opt e).0.emask ≡ e.emask
unfolding fire_event
fire_event-emask call a opt e balanced =
    by_test (is_empty (e.handlers catch_all) && is_empty (e.handlers (topic a)))
  where
    first : Event → Emitter → Loop
    first ev e' = fire call catch_all (e.handlers catch_all) (record ev { arg = a; opt = opt }) e'

    fired : Emitter × (Event × ℕ) → Emitter × Bool
    fired (e', (ev, b)) = finish b (fire_topic call (topic a) (e.handlers (topic a)) (first ev e'))

    fired-emask : (n : Emitter × (Event × ℕ)) → IsTaken e.emask n → (fired n).0.emask ≡ e.emask
    fired-emask (e', (ev, b)) (eq_mask, free) =
        finish-emask b e.emask (fire_topic call (topic a) (e.handlers (topic a)) (first ev e')) free
          (fire_topic-emask call balanced (topic a) (e.handlers (topic a)) (first ev e')
            ∙ fire-emask call balanced catch_all (e.handlers catch_all) _ e'
            ∙ eq_mask)

    by_test :
        (c : Bool)
        → (if◌then◌else◌ {A = Emitter × Bool} c (e, false) (fired (new_event e.emask e))).0.emask
          ≡ e.emask
    by_test true = refl
    by_test false = fired-emask (new_event e.emask e) (new_event-IsTaken e)
