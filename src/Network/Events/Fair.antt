-- ===== src/Network/Events/Fair.antt =====
-- The handlers of a topic, when callbacks leave the emitter alone.
use gowarcraft.Prelude.{
  ℕ, ◌≡◌, ◌≤◌, ◌||◌, ◌++◌, not, Bool, true, false, if◌then◌else◌, List, [], ◌∷◌, All, arith, refl,
  sym, ◌∙◌, ap,
}
use gowarcraft.Network.Events.{
  Topic, Event, Handler, Emitter, Loop, Callbacks, same, keep_if, off_once, outlives, call_handler,
  fire_loop, start_loop, fire, is_empty,
}
use gowarcraft.Network.Events.Ids.{IsDescending, same_refl}
use gowarcraft.Network.Events.Firing.{Within, IsFired, start-IsFired}

-- The handlers that stay when those of a list have been called.
abbrev pub persistent : List Handler → List Handler
persistent arr = keep_if (λ h. not h.once) arr

keep_if-append :
    (p : Handler → Bool) (xs ys : List Handler)
    → keep_if p (xs ++ ys) ≡ keep_if p xs ++ keep_if p ys
unfolding keep_if
keep_if-append p [] ys = refl
keep_if-append p (x ∷ xs) ys = ground (arith, keep_if-append p xs ys)

module _ (max_id min_id : ℕ) where
  keep_if-called :
      (once : Bool) (called : List Handler)
      → All (Within max_id min_id once) called
      → keep_if (outlives min_id max_id) called ≡ persistent called
  unfolding keep_if
  keep_if-called once [] w = refl
  keep_if-called once (c ∷ called) (w, ws) = ground (arith, w, keep_if-called once called ws)

  keep_if-rest :
      (n : ℕ) (rest : List Handler)
      → n ≤ min_id
      → IsDescending n rest
      → keep_if (outlives min_id max_id) rest ≡ rest
  unfolding keep_if
  keep_if-rest n [] h d = refl
  keep_if-rest n (x ∷ rest) h (lt, d) =
      ground (arith, h, lt, keep_if-rest x.id rest (omega arith) d)

persistent-id :
    (max_id min_id : ℕ) (called : List Handler)
    → All (Within max_id min_id false) called
    → persistent called ≡ called
unfolding keep_if
persistent-id max_id min_id [] w = refl
persistent-id max_id min_id (c ∷ called) (w, ws) =
    ground (arith, w, persistent-id max_id min_id called ws)

-- A fire, of callbacks that leave the emitter alone.
pub record IsFair (ht : Topic) (arr : List Handler) (e : Emitter) (s : Loop) : Type 0 where
  pub rest : List Handler
  pub split : s.called ++ rest ≡ arr
  pub complete : (s.prevent || is_empty rest) ≡ true
  pub left : s.emitter.handlers ht ≡ persistent s.called ++ rest
  pub prevented : s.prevent ≡ s.event.prevent_next
  pub others : (t : Topic) → same t ht ≡ false → s.emitter.handlers t ≡ e.handlers t

fire_loop-emitter :
    (call : Callbacks) (arr : List Handler) (s : Loop)
    → ((c : ℕ) (ev : Event) (e : Emitter) → (call c ev e).1 ≡ e)
    → (fire_loop call arr s).emitter ≡ s.emitter
unfolding fire_loop
fire_loop-emitter call [] s quiet = refl
fire_loop-emitter call (h ∷ arr) s quiet = ground (
  arith,
  quiet h.callback s.event s.emitter,
  fire_loop-emitter call arr (call_handler call h s) quiet,
)

fire_loop-prevent :
    (call : Callbacks) (arr : List Handler) (s : Loop)
    → s.prevent ≡ s.event.prevent_next
    → (fire_loop call arr s).prevent ≡ (fire_loop call arr s).event.prevent_next
unfolding fire_loop
fire_loop-prevent call [] s h = h
fire_loop-prevent call (x ∷ arr) s h =
    ground (arith, fire_loop-prevent call arr (call_handler call x s) refl)

module _ (ht : Topic) (max_id : ℕ) (arr : List Handler) (e : Emitter) (s : Loop) where
  drop_once-IsFair :
      (c : Bool)
      → s.once ≡ c
      → s.emitter ≡ e
      → e.handlers ht ≡ arr
      → s.prevent ≡ s.event.prevent_next
      → IsFired max_id arr s
      → IsFair ht arr e
          (if c then record s { emitter = off_once ht s.min_id max_id s.emitter } else s)
  unfolding off_once
  drop_once-IsFair true o se he p f = record {
    rest = f.rest;
    split = f.firing.split;
    complete = f.complete;
    left =
        rw (same_refl ht, se, he, ← f.firing.split)
          (keep_if-append _ s.called f.rest
            ∙ ap (λ xs. xs ++ keep_if (outlives s.min_id max_id) f.rest)
                (keep_if-called max_id s.min_id s.once s.called f.firing.within)
            ∙ ap (λ xs. persistent s.called ++ xs)
                (keep_if-rest max_id s.min_id s.min_id f.rest (omega arith) f.firing.below));
    prevented = p;
    others = λ t d. rw d (ap (λ (x : Emitter). x.handlers t) se);
  }
  drop_once-IsFair false o se he p f = record {
    rest = f.rest;
    split = f.firing.split;
    complete = f.complete;
    left =
        ap (λ (x : Emitter). x.handlers ht) se
        ∙ he
        ∙ sym f.firing.split
        ∙ ap (λ xs. xs ++ f.rest)
            (sym (persistent-id max_id s.min_id s.called (rw (← o) f.firing.within)));
    prevented = p;
    others = λ t d. ap (λ (x : Emitter). x.handlers t) se;
  }

-- fire, with the handlers of a topic whose ids go down from below some bound, an event that is
-- not yet prevented, and callbacks that leave the emitter alone: the handlers that are called
-- are a front of the list, which is all of it unless the last of them prevents the next; the
-- answer is whether it does; of the handlers that are called those that are once handlers are
-- removed, and every other handler, of this and of all other topics, stays in its place.
pub fire-IsFair :
    (call : Callbacks) (ht : Topic) (n : ℕ) (ev : Event) (e : Emitter)
    → ((c : ℕ) (x : Event) (y : Emitter) → (call c x y).1 ≡ y)
    → ev.prevent_next ≡ false
    → IsDescending n (e.handlers ht)
    → IsFair ht (e.handlers ht) e (fire call ht (e.handlers ht) ev e)
unfolding fire keep_if
fire-IsFair call ht n ev e quiet p d = by_handlers (e.handlers ht) refl d
  where
    by_handlers :
        (arr : List Handler)
        → e.handlers ht ≡ arr
        → IsDescending n arr
        → IsFair ht arr e (fire call ht arr ev e)
    by_handlers [] he d = record {
      rest = [];
      split = refl;
      complete = refl;
      left = he;
      prevented = sym p;
      others = λ t ne. refl;
    }
    by_handlers (h ∷ arr) he d =
        let s = fire_loop call (h ∷ arr) (start_loop ev e) in
        drop_once-IsFair ht h.id (h ∷ arr) e s s.once refl
          (fire_loop-emitter call (h ∷ arr) (start_loop ev e) quiet) he
          (fire_loop-prevent call (h ∷ arr) (start_loop ev e) (sym p))
          (start-IsFired call h arr ev e d.1)
