-- ===== src/Network/Events/Spent.antt =====
-- The once handlers of a topic, when callbacks may call the methods of the emitter.
use gowarcraft.Prelude.{
  ℕ, ◌==◌, ◌≡◌, ◌&&◌, ◌||◌, Bool, true, false, leb, if◌then◌else◌, List, [], ◌∷◌, All, arith, refl,
}
use gowarcraft.Network.Events.{
  Topic, Event, Handler, Emitter, Loop, Callbacks, keep_if, off_once, fire_loop, start_loop, fire,
}
use gowarcraft.Network.Events.Ids.{IsDescending, same_refl}
use gowarcraft.Network.Events.Firing.{Within, start-IsFired}

All-keep_if :
    (P : Handler → Type 0) (p : Handler → Bool) (arr : List Handler)
    → ((h : Handler) → p h ≡ true → P h)
    → All P (keep_if p arr)
unfolding keep_if
All-keep_if P p [] f = tt
All-keep_if P p (h ∷ arr) f = by_test (p h) refl (All-keep_if P p arr f)
  where
    by_test :
        (c : Bool)
        → p h ≡ c
        → All P (keep_if p arr)
        → All P (if c then h ∷ keep_if p arr else keep_if p arr)
    by_test true e rest = (f h e, rest)
    by_test false e rest = rest

-- Some once handler of a list has the id.
abbrev pub called_once : ℕ → List Handler → Bool
called_once i [] = false
called_once i (c ∷ called) = c.id == i && c.once || called_once i called

called_once-Within :
    (max_id min_id : ℕ) (once : Bool) (i : ℕ) (called : List Handler)
    → All (Within max_id min_id once) called
    → called_once i called ≡ true
    → (leb min_id i && leb i max_id && once) ≡ true
called_once-Within max_id min_id once i [] w h = absurd (cc)
called_once-Within max_id min_id once i (c ∷ called) (w, ws) h =
    ground (arith, w, h, called_once-Within max_id min_id once i called ws)

abbrev pub IsSpent : List Handler → Handler → Type 0
IsSpent called g = (g.once && called_once g.id called) ≡ false

All-every : (P : Handler → Type 0) (arr : List Handler) → ((h : Handler) → P h) → All P arr
All-every P [] f = tt
All-every P (h ∷ arr) f = (f h, All-every P arr f)

abbrev pub AllSpent : Topic → Loop → Type 0
AllSpent ht s = All (IsSpent s.called) (s.emitter.handlers ht)

module _ (ht : Topic) (max_id : ℕ) (s : Loop) where
  spent_at :
      (c : Bool)
      → s.once ≡ c
      → All (Within max_id s.min_id s.once) s.called
      → AllSpent ht (if c then record s { emitter = off_once ht s.min_id max_id s.emitter } else s)
  unfolding off_once
  spent_at true e w = rw (same_refl ht) (
      All-keep_if (IsSpent s.called) _ _
        (λ g h. ground (arith, h, called_once-Within max_id s.min_id s.once g.id s.called w)))
  spent_at false e w =
      All-every (IsSpent s.called) _
        (λ g. ground (arith, e, called_once-Within max_id s.min_id s.once g.id s.called w))

-- Whatever the callbacks do to the emitter: if the ids of the handlers go down from below some
-- bound, then after fire no once handler of the topic has the id of a once handler that has been
-- called.
pub fire-IsSpent :
    (call : Callbacks) (ht : Topic) (n : ℕ) (arr : List Handler) (ev : Event) (e : Emitter)
    → IsDescending n arr
    → AllSpent ht (fire call ht arr ev e)
unfolding fire
fire-IsSpent call ht n [] ev e d = All-every (IsSpent []) _ (λ g. ground arith)
fire-IsSpent call ht n (h ∷ arr) ev e d =
    let s = fire_loop call (h ∷ arr) (start_loop ev e) in
    spent_at ht h.id s s.once refl (start-IsFired call h arr ev e d.1).firing.within
