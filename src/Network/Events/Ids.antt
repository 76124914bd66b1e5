-- ===== src/Network/Events/Ids.antt =====
-- The ids of the handlers of a topic, newest first.
use gowarcraft.Prelude.{
  ℕ, ◌+◌, ◌%◌, ◌^◌, ◌==◌, ◌≡◌, ◌<◌, ◌≤◌, not, Bool, true, false, if◌then◌else◌, List, [], ◌∷◌,
  arith, refl,
}
use gowarcraft.Network.Events.{
  Topic, EventArg, topic, Handler, Emitter, same, add_handler, keep_if, off,
}

-- The ids go down, from below a bound.
abbrev pub IsDescending : ℕ → List Handler → Type 0
IsDescending n [] = Unit
IsDescending n (h ∷ arr) = (h.id < n) × IsDescending h.id arr

-- No handler has an id that is still to be given.
abbrev pub IsRegistered : Emitter → Type 0
IsRegistered e = (t : Topic) → IsDescending (e.id + 1) (e.handlers t)

pub IsDescending-mono :
    (m n : ℕ) (arr : List Handler) → m ≤ n → IsDescending m arr → IsDescending n arr
IsDescending-mono m n [] h d = tt
IsDescending-mono m n (x ∷ arr) h (lt, d) = (omega arith, d)

if-IsDescending :
    (c : Bool) (n : ℕ) (xs ys : List Handler)
    → IsDescending n xs
    → IsDescending n ys
    → IsDescending n (if c then xs else ys)
if-IsDescending true n xs ys hx hy = hx
if-IsDescending false n xs ys hx hy = hy

pub keep_if-IsDescending :
    (p : Handler → Bool) (n : ℕ) (arr : List Handler)
    → IsDescending n arr
    → IsDescending n (keep_if p arr)
unfolding keep_if
keep_if-IsDescending p n [] d = tt
keep_if-IsDescending p n (h ∷ arr) (lt, d) =
    let rest = keep_if-IsDescending p h.id arr d in
    if-IsDescending (p h) n _ _ (lt, rest)
      (IsDescending-mono h.id n (keep_if p arr) (omega arith) rest)

pub same_refl : (t : Topic) → same t t ≡ true
unfolding same
same_refl [] = refl
same_refl (c ∷ t) = ground (arith, same_refl t)

pub same-eq : (s t : Topic) → same s t ≡ true → s ≡ t
unfolding same
same-eq [] [] h = refl
same-eq [] (c ∷ t) h = cc
same-eq (b ∷ s) [] h = cc
same-eq (b ∷ s) (c ∷ t) h = ground (arith, h, same-eq s t)

-- Handlers that are all below an id are kept when it is removed.
keep_if-below :
    (i n : ℕ) (arr : List Handler)
    → n ≤ i
    → IsDescending n arr
    → keep_if (λ h. not (h.id == i)) arr ≡ arr
unfolding keep_if
keep_if-below i n [] h d = refl
keep_if-below i n (x ∷ arr) h (lt, d) =
    ground (arith, h, lt, keep_if-below i x.id arr (omega arith) d)

keep_if-newest :
    (i : ℕ) (once : Bool) (callback : ℕ) (arr : List Handler)
    → IsDescending i arr
    → keep_if (λ h. not (h.id == i)) (record { id = i; once = once; callback = callback } ∷ arr)
      ≡ arr
unfolding keep_if
keep_if-newest i once callback arr d = ground (arith, keep_if-below i i arr (omega arith) d)

-- On, or Once, and then Off with the id that was returned leaves the handlers of every topic as
-- they were, if the ids of the handlers go down and none is still to be given, and the counter
-- does not wrap.
pub off-add_handler :
    (a : EventArg) (callback : ℕ) (once : Bool) (e : Emitter) (t : Topic)
    → IsRegistered e
    → e.id + 1 < 2 ^ 32
    → (off (add_handler a callback once e).1 (add_handler a callback once e).0).handlers t
      ≡ e.handlers t
unfolding add_handler off keep_if
off-add_handler a callback once e t v h =
    rw (no_wrap, same_refl (topic a))
      (ground (arith, keep_if-newest (e.id + 1) once callback _ (v (topic a)), same-eq t (topic a)))
  where
    no_wrap : (e.id + 1) % 2 ^ 32 ≡ e.id + 1
    no_wrap = omega (arith, h)
