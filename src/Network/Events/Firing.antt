-- ===== src/Network/Events/Firing.antt =====
-- The loop of fire, and the handlers that it leaves.
use gowarcraft.Prelude.{
  ℕ, ◌≡◌, ◌≤◌, ◌&&◌, ◌||◌, ◌++◌, not, Bool, true, false, leb, if◌then◌else◌, List, [], ◌∷◌, All,
  All-append, append_assoc, arith, refl, ◌∙◌,
}
use gowarcraft.Network.Events.{
  Event, Handler, Emitter, Loop, Callbacks, call_handler, fire_loop, start_loop, is_empty,
}
use gowarcraft.Network.Events.Ids.{IsDescending}

-- A handler with an id in a range, which is not a once handler unless one has been seen.
abbrev pub Within : ℕ → ℕ → Bool → Handler → Type 0
Within max_id min_id once h = (leb min_id h.id && leb h.id max_id && (once || not h.once)) ≡ true

-- Where a loop over all handlers of a topic, newest first, has come to.
pub record IsFiring (max_id : ℕ) (all rest : List Handler) (s : Loop) : Type 0 where
  pub split : s.called ++ rest ≡ all
  pub below : IsDescending s.min_id rest
  pub within : All (Within max_id s.min_id s.once) s.called

pub record IsFired (max_id : ℕ) (all : List Handler) (s : Loop) : Type 0 where
  pub rest : List Handler
  pub firing : IsFiring max_id all rest s
  pub complete : (s.prevent || is_empty rest) ≡ true

Within-mono :
    (max_id m n : ℕ) (a b : Bool) (arr : List Handler)
    → n ≤ m
    → All (Within max_id m b) arr
    → All (Within max_id n (a || b)) arr
Within-mono max_id m n a b [] h w = tt
Within-mono max_id m n a b (x ∷ arr) h (w, ws) =
    (ground (arith, h, w), Within-mono max_id m n a b arr h ws)

call_handler-IsFiring :
    (call : Callbacks) (max_id : ℕ) (all rest : List Handler) (h : Handler) (s : Loop)
    → h.id ≤ max_id
    → h.id ≤ s.min_id
    → s.called ++ h ∷ rest ≡ all
    → IsDescending h.id rest
    → All (Within max_id s.min_id s.once) s.called
    → IsFiring max_id all rest (call_handler call h s)
call_handler-IsFiring call max_id all rest h s le lt split below within = record {
  split = append_assoc s.called (h ∷ []) rest ∙ split;
  below = below;
  within =
      All-append (Within max_id h.id (h.once || s.once)) s.called (h ∷ [])
        (Within-mono max_id s.min_id h.id h.once s.once s.called lt within)
        (ground (arith, le), tt);
}

if-IsFired :
    (c : Bool) (max_id : ℕ) (all rest : List Handler) (s s' : Loop)
    → s.prevent ≡ c
    → IsFiring max_id all rest s
    → (s.prevent ≡ false → IsFired max_id all s')
    → IsFired max_id all (if c then s else s')
if-IsFired true max_id all rest s s' e f go = record {
  rest = rest;
  firing = f;
  complete = rw e refl;
}
if-IsFired false max_id all rest s s' e f go = go e

fire_loop-IsFired :
    (call : Callbacks) (max_id : ℕ) (all rest : List Handler) (s : Loop)
    → s.min_id ≤ max_id
    → s.prevent ≡ false
    → IsFiring max_id all rest s
    → IsFired max_id all (fire_loop call rest s)
unfolding fire_loop
fire_loop-IsFired call max_id all [] s le p f = record {
  rest = [];
  firing = f;
  complete = ground arith;
}
fire_loop-IsFired call max_id all (h ∷ rest) s le p f =
    let s' = call_handler call h s in
    let f' =
      call_handler-IsFiring call max_id all rest h s (omega (arith, f.below, le))
        (omega (arith, f.below)) f.split f.below.1 f.within in
    if-IsFired s'.prevent max_id all rest s' _ refl f'
      (λ q. fire_loop-IsFired call max_id all rest s' (omega (arith, f.below, le)) q f')

-- The loop from its start.
pub start-IsFired :
    (call : Callbacks) (h : Handler) (arr : List Handler) (ev : Event) (e : Emitter)
    → IsDescending h.id arr
    → IsFired h.id (h ∷ arr) (fire_loop call (h ∷ arr) (start_loop ev e))
unfolding fire_loop
start-IsFired call h arr ev e d =
    let s' = call_handler call h (start_loop ev e) in
    let f' : IsFiring h.id (h ∷ arr) arr s' = record {
      split = refl;
      below = d;
      within = (ground arith, tt);
    } in
    if-IsFired s'.prevent h.id (h ∷ arr) arr s' _ refl f'
      (λ q. fire_loop-IsFired call h.id (h ∷ arr) arr s' (omega arith) q f')
