-- ===== src/Lobby/Laggers/Stopping.antt =====
-- onStopLag takes one player out of the list that it ranges over.
use gowarcraft.Prelude.{
  ℕ, zero, suc, ◌+◌, ◌-◌, ◌==◌, ◌≡◌, ◌++◌, true, false, some, ltb, List, [], ◌∷◌, All, All-append,
  length, length-append, take, drop, take_all, take-length_append, drop-length_append, append_assoc,
  length-drop, arith, refl,
}
use gowarcraft.W3gs.Lag.{LagPlayer}
use gowarcraft.Lobby.Laggers.{Slice, shift, notice, stop_lagger, stop_loop, on_stop_lag}

abbrev pub IsOther : ℕ → LagPlayer → Type 0
IsOther pid lp = (lp.player_id == pid) ≡ false

drop-suc :
    (xs : List LagPlayer) (i : ℕ) (x : LagPlayer) (rest : List LagPlayer)
    → drop i xs ≡ x ∷ rest
    → drop (i + 1) xs ≡ rest
drop-suc [] zero x rest e = ground (arith, e)
drop-suc [] (suc i) x rest e = ground (arith, e)
drop-suc (y ∷ xs) zero x rest e = ground (arith, e)
drop-suc (y ∷ xs) (suc i) x rest e = ground (arith, drop-suc xs i x rest e)

drop-append : (xs ys : List LagPlayer) (n : ℕ) → drop (length xs + n) (xs ++ ys) ≡ drop n ys
drop-append [] ys n = ground arith
drop-append (x ∷ xs) ys n = rw suc_add (drop-append xs ys n)
  where
    suc_add : suc (length xs) + n ≡ suc (length xs + n)
    suc_add = omega arith

All-drop : (P : LagPlayer → Type 0) (n : ℕ) (xs : List LagPlayer) → All P xs → All P (drop n xs)
All-drop P zero xs h = h
All-drop P (suc n) [] h = tt
All-drop P (suc n) (x ∷ xs) (h, hs) = All-drop P n xs hs

-- The loop passes over the other players.
stop_loop-others :
    (pid : ℕ) (xs rest : List LagPlayer) (i : ℕ) (s : Slice)
    → All (IsOther pid) xs
    → drop i s.items ≡ xs ++ rest
    → stop_loop pid (length (xs ++ rest)) i s ≡ stop_loop pid (length rest) (i + length xs) s
unfolding stop_loop
stop_loop-others pid [] rest i s h e = rw same refl
  where
    same : i + 0 ≡ i
    same = omega arith
stop_loop-others pid (x ∷ xs) rest i s (h, hs) e =
    rw (e, h, further)
      (stop_loop-others pid xs rest (i + 1) s hs (drop-suc s.items i x (xs ++ rest) e))
  where
    further : i + suc (length xs) ≡ i + 1 + length xs
    further = omega arith

stop_loop-done :
    (pid : ℕ) (zs : List LagPlayer) (n i : ℕ) (s : Slice)
    → All (IsOther pid) zs
    → length zs ≡ n
    → drop i s.items ≡ zs
    → stop_loop pid n i s ≡ some s
unfolding stop_loop
stop_loop-done pid [] zero i s h l e = refl
stop_loop-done pid [] (suc n) i s h l e = absurd (omega (arith, l))
stop_loop-done pid (z ∷ zs) zero i s h l e = absurd (omega (arith, l))
stop_loop-done pid (z ∷ zs) (suc n) i s (h, hs) l e =
    rw (e, h) (stop_loop-done pid zs n (i + 1) s hs (omega (arith, l)) (drop-suc s.items i z zs e))

rest-IsOther :
    (pid : ℕ) (lp : LagPlayer) (ys : List LagPlayer)
    → All (IsOther pid) ys
    → All (IsOther pid) (drop 1 (ys ++ drop (length ys) (lp ∷ ys)))
rest-IsOther pid lp [] h = tt
rest-IsOther pid lp (y ∷ ys) h =
    All-drop (IsOther pid) 1 (y ∷ ys ++ drop (length ys) (y ∷ ys))
      (All-append (IsOther pid) (y ∷ ys) _ h (All-drop (IsOther pid) (length ys) (y ∷ ys) h))

length-rest :
    (lp : LagPlayer) (ys : List LagPlayer)
    → length (drop 1 (ys ++ drop (length ys) (lp ∷ ys))) ≡ length ys
length-rest lp [] = refl
length-rest lp (y ∷ ys) =
    omega (arith, length-append ys (drop (length ys) (y ∷ ys)), length-drop (length ys) (y ∷ ys))

module _ (pid : ℕ) (xs ys : List LagPlayer) (lp : LagPlayer) where
  before : Slice
  before = record { items = xs ++ lp ∷ ys; len = length (xs ++ lp ∷ ys); stopped = [] }

  after_front : drop (length xs + 1) (xs ++ lp ∷ ys) ≡ ys
  after_front = drop-append xs (lp ∷ ys) 1

  -- The last element of the array is left where it was.
  leftover : drop (length (xs ++ lp ∷ ys) - 1) (xs ++ lp ∷ ys) ≡ drop (length ys) (lp ∷ ys)
  leftover = rw last_index (drop-append xs (lp ∷ ys) (length ys))
    where
      last_index : length (xs ++ lp ∷ ys) - 1 ≡ length xs + length ys
      last_index = omega (arith, length-append xs (lp ∷ ys))

  rest : List LagPlayer
  rest = drop 1 (ys ++ drop (length ys) (lp ∷ ys))

  after : Slice
  after = record {
    items = xs ++ ys ++ drop (length ys) (lp ∷ ys);
    len = length (xs ++ lp ∷ ys) - 1;
    stopped = notice lp;
  }

  shifted : shift (length xs) before ≡ xs ++ ys ++ drop (length ys) (lp ∷ ys)
  unfolding before
  shifted =
      rw (take_all (xs ++ lp ∷ ys), after_front, take-length_append xs (lp ∷ ys), leftover) refl

  stop_lagger-after : stop_lagger (length xs) lp before ≡ some after
  unfolding before after
  stop_lagger-after = rw (in_slice, shifted) refl
    where
      in_slice : ltb (length (xs ++ lp ∷ ys)) (length xs + 1) ≡ false
      in_slice = ground (arith, length-append xs (lp ∷ ys))

  stop_loop-rest :
      All (IsOther pid) ys → stop_loop pid (length ys) (length xs + 1) after ≡ some after
  unfolding after rest
  stop_loop-rest h =
      stop_loop-done pid rest (length ys) (length xs + 1) after (rest-IsOther pid lp ys h)
        (length-rest lp ys) (rw append_assoc (drop-append xs (ys ++ drop (length ys) (lp ∷ ys)) 1))

  -- If exactly one lagging player has the id of the player that stops lagging, the loop of
  -- onStopLag, which shortens the slice that it ranges over, does not panic, removes just this
  -- player, keeps the order of the others, and sends one StopLag if the lag screen is up for the
  -- player, or else none.
  pub on_stop_lag-one :
      All (IsOther pid) xs
      → lp.player_id ≡ pid
      → All (IsOther pid) ys
      → on_stop_lag pid (xs ++ lp ∷ ys) ≡ some (xs ++ ys, notice lp)
  unfolding on_stop_lag stop_loop before after
  on_stop_lag-one hx e hy =
      rw
        (
          stop_loop-others pid xs (lp ∷ ys) 0 before hx refl,
          from_zero,
          drop-length_append xs (lp ∷ ys),
          found,
        )
        (rw stop_lagger-after (rw (stop_loop-rest hy) (rw (left) refl)))
    where
      from_zero : 0 + length xs ≡ length xs
      from_zero = omega arith

      found : (lp.player_id == pid) ≡ true
      found = ground (arith, e)

      front : length (xs ++ lp ∷ ys) - 1 ≡ length (xs ++ ys)
      front = omega (arith, length-append xs (lp ∷ ys), length-append xs ys)

      left : take (length (xs ++ lp ∷ ys) - 1) (xs ++ ys ++ drop (length ys) (lp ∷ ys)) ≡ xs ++ ys
      left = rw front (take-length_append (xs ++ ys) (drop (length ys) (lp ∷ ys)))
