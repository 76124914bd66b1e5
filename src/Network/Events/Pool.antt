-- ===== src/Network/Events/Pool.antt =====
-- The events of the pool, when several goroutines fire events at the same time.
use gowarcraft.Prelude.{
  ℕ, ◌==◌, ◌≡◌, ◌<◌, ◌&&◌, ◌||◌, not, Bool, true, false, ltb, if◌then◌else◌, List, [], ◌∷◌, arith,
  refl,
}
use gowarcraft.Protocol.BitSet.{test_bit, set_bit, complement, trailing_zeros}
use gowarcraft.Protocol.BitSet.Laws.{
  test_bit-set_bit, test_bit-clear_bit, test_bit-complement, test_bit-trailing_zeros, test_bit-zero,
}
use gowarcraft.Network.Events.{
  Event, empty_event, Emitter, pool_size, new_event, free_event, leave_event,
}

-- The emitter, and the slots of the events that are being fired.
pub record Flight : Type 0 where
  pub emitter : Emitter
  pub held : List ℕ

abbrev pub has : ℕ → List ℕ → Bool
has i [] = false
has i (b ∷ held) = i == b || has i held

abbrev pub without : ℕ → List ℕ → List ℕ
without i [] = []
without i (b ∷ held) = if i == b then without i held else b ∷ without i held

-- A goroutine takes an event, with a mask that it has loaded at any time before, or gives one back
-- that it holds, as callbacks have left it.
pub data Move : Type 0 where
  takes : (m : ℕ) → Move
  returns : (b : ℕ) (left : Event) → Move

abbrev pub hold : ℕ → List ℕ → List ℕ
hold b held = if ltb b pool_size then b ∷ held else held

unfoldable pub move : Move → Flight → Flight
move (takes m) f =
    let (e, (ev, b)) = new_event m f.emitter in record { emitter = e; held = hold b f.held }
move (returns b left) f =
    if has b f.held
    then record { emitter = free_event b (leave_event b left f.emitter); held = without b f.held }
    else f

unfoldable pub moves : List Move → Flight → Flight
moves [] f = f
moves (m ∷ ms) f = moves ms (move m f)

-- The mask has the slots that are held, and the others are empty.
abbrev pub IsPool : Flight → Type 0
IsPool f =
    (i : ℕ)
    → i < 16
    → (test_bit i f.emitter.emask ≡ has i f.held)
      × (has i f.held ≡ false → f.emitter.epool i ≡ empty_event)

has-without : (i b : ℕ) (held : List ℕ) → has i (without b held) ≡ (has i held && not (i == b))
has-without i b [] = refl
has-without i b (x ∷ held) = ground (arith, has-without i b held)

move-IsPool : (m : Move) (f : Flight) → IsPool f → IsPool (move m f)
unfolding move new_event free_event
move-IsPool (takes m) f v i h =
    let b : ℕ = trailing_zeros 16 (complement 32 m) in
    ground (arith, h, v i h, test_bit-set_bit i b m)
move-IsPool (returns b left) f v i h =
    ground (arith, h, v i h, has-without i b f.held, test_bit-clear_bit i b f.emitter.emask)

moves-IsPool : (ms : List Move) (f : Flight) → IsPool f → IsPool (moves ms f)
unfolding moves
moves-IsPool [] f v = v
moves-IsPool (m ∷ ms) f v = moves-IsPool ms (move m f) (move-IsPool m f v)

abbrev pub idle : Emitter → Flight
idle e = record { emitter = record e { emask = 0; epool = λ i. empty_event }; held = [] }

idle-IsPool : (e : Emitter) → IsPool (idle e)
idle-IsPool e i h = (test_bit-zero i, λ n. refl)

-- A slot that an event is given is not held, and the event is empty.
abbrev pub IsFresh : Flight → Emitter × (Event × ℕ) → Type 0
IsFresh f (e, (ev, b)) = (ltb b pool_size && has b f.held ≡ false) × (ev ≡ empty_event)

new_event-IsFresh : (m : ℕ) (f : Flight) → IsPool f → IsFresh f (new_event m f.emitter)
unfolding new_event
new_event-IsFresh m f v = by_test (ltb b pool_size && f.emitter.emask == m) refl
  where
    b : ℕ
    b = trailing_zeros 16 (complement 32 m)

    by_test :
        (c : Bool)
        → (ltb b pool_size && f.emitter.emask == m) ≡ c
        → IsFresh f (
            if c
            then (record f.emitter { emask = set_bit b m }, (f.emitter.epool b, b))
            else (f.emitter, (empty_event, 255)))
    by_test true e =
        let free : has b f.held ≡ false = ground (
          arith,
          e,
          v b,
          test_bit-trailing_zeros 16 (complement 32 m),
          test_bit-complement 32 b m,
        ) in
        (ground (arith, free), (v b (ground (arith, e))).1 free)
    by_test false e = (refl, refl)

-- From an empty pool, and after any number of events that goroutines take, with masks that they
-- have loaded at any time before, and give back as callbacks have left them: the next event that
-- is taken is empty, whatever was left in its slot, and its slot is not held by any other.
pub moves-IsFresh :
    (e : Emitter) (ms : List Move) (m : ℕ)
    → IsFresh (moves ms (idle e)) (new_event m (moves ms (idle e)).emitter)
moves-IsFresh e ms m =
    new_event-IsFresh m (moves ms (idle e)) (moves-IsPool ms (idle e) (idle-IsPool e))
