-- ===== src/Lobby/Laggers/Waiting.antt =====
-- How long the game waits for a player that is lagging.
use gowarcraft.Prelude.{
  ℕ, ◌*◌, ◌==◌, ◌≡◌, ◌<◌, ◌||◌, Bool, true, false, Option, some, none, ltb, if◌then◌else◌, List, [],
  ◌∷◌, ◌++◌, ◌+◌, ◌%◌, ◌^◌, ◌≤◌, ◌&&◌, not, refl, sym, All, arith, subst,
}
use gowarcraft.W3gs.Lag.{LagPlayer}
use gowarcraft.Lobby.Slots.{Lobby}
use gowarcraft.Lobby.Changes.{contains}
use gowarcraft.Lobby.Desync.{◌>>=◌}
use gowarcraft.Lobby.Laggers.{
  Laggers, kicked_ms, set_droppers, clear_laggers, on_screen, count_time, count_times, inc_laggers,
  is_overdue, show_screen, is_new_lagger,
}

-- The player has been kicked, or is not waited for beyond the limit.
abbrev pub IsWaited : ℕ → LagPlayer → Type 0
IsWaited lag_timeout lp =
    (lp.lag_duration_ms == kicked_ms || ltb (lp.lag_duration_ms * 1000000) lag_timeout) ≡ true

on_screen-IsWaited :
    (lag_timeout : ℕ) (players : List LagPlayer)
    → 15000000000 < lag_timeout
    → All (IsWaited lag_timeout) (on_screen players)
unfolding on_screen
on_screen-IsWaited lag_timeout [] h = tt
on_screen-IsWaited lag_timeout (lp ∷ players) h =
    (ground (arith, h), on_screen-IsWaited lag_timeout players h)

if-All :
    (P : LagPlayer → Type 0) (c : Bool) (x y : List LagPlayer × List ℕ)
    → All P x.0
    → All P y.0
    → All P (if◌then◌else◌ {A = List LagPlayer × List ℕ} c x y).0
if-All P true x y hx hy = hx
if-All P false x y hx hy = hy

count_time-IsWaited :
    (l : Lobby) (lag_timeout dropmask : ℕ) (lp : LagPlayer) (ms : ℕ)
    → IsWaited lag_timeout (count_time l lag_timeout dropmask lp ms).0
count_time-IsWaited l lag_timeout dropmask lp ms = ground arith

count_times-IsWaited :
    (l : Lobby) (lag_timeout dropmask inc : ℕ) (players : List LagPlayer)
    → All (IsWaited lag_timeout) players
    → All (IsWaited lag_timeout) (count_times l lag_timeout dropmask inc players).0
unfolding count_times
count_times-IsWaited l lag_timeout dropmask inc [] h = tt
count_times-IsWaited l lag_timeout dropmask inc (lp ∷ players) (h, hs) =
    let rest = count_times-IsWaited l lag_timeout dropmask inc players hs in
    if-All (IsWaited lag_timeout) (lp.lag_duration_ms == kicked_ms) _ _ (h, rest)
      (if-All (IsWaited lag_timeout) (lp.lag_duration_ms == 0) _ _ (h, hs)
        (count_time-IsWaited l lag_timeout dropmask lp _, rest))

-- The ids that are marked as kicked in the second list and not in the first, of players that are
-- still in the lobby.
abbrev pub newly_kicked : Lobby → List LagPlayer → List LagPlayer → List ℕ
newly_kicked l (lp ∷ before) (lp' ∷ after) =
    let rest = newly_kicked l before after in
    if not (lp.lag_duration_ms == kicked_ms)
      && lp'.lag_duration_ms == kicked_ms
      && contains l.players lp'.player_id
    then lp'.player_id ∷ rest
    else rest
newly_kicked l before after = []

-- The players stay, and one is marked only when its time, with what has passed, is overdue.
abbrev pub IsDue : ℕ → ℕ → ℕ → List LagPlayer → List LagPlayer → Type 0
IsDue lag_timeout dropmask inc (lp ∷ before) (lp' ∷ after) =
    (lp'.player_id ≡ lp.player_id)
    × ((lp.lag_duration_ms == kicked_ms
          || not (lp'.lag_duration_ms == kicked_ms)
          || is_overdue lag_timeout dropmask ((lp.lag_duration_ms + inc) % 2 ^ 32))
        ≡ true)
    × IsDue lag_timeout dropmask inc before after
IsDue lag_timeout dropmask inc [] [] = Unit
IsDue lag_timeout dropmask inc before after = ⊥

newly_kicked-same : (l : Lobby) (players : List LagPlayer) → newly_kicked l players players ≡ []
newly_kicked-same l [] = refl
newly_kicked-same l (lp ∷ players) = ground (arith, newly_kicked-same l players)

IsDue-same : (t dropmask inc : ℕ) (players : List LagPlayer) → IsDue t dropmask inc players players
IsDue-same t dropmask inc [] = tt
IsDue-same t dropmask inc (lp ∷ players) = (refl, ground arith, IsDue-same t dropmask inc players)

newly_kicked-on_screen :
    (l : Lobby) (players : List LagPlayer) → newly_kicked l players (on_screen players) ≡ []
unfolding on_screen
newly_kicked-on_screen l [] = refl
newly_kicked-on_screen l (lp ∷ players) = ground (arith, newly_kicked-on_screen l players)

IsDue-on_screen :
    (t dropmask inc : ℕ) (players : List LagPlayer)
    → IsDue t dropmask inc players (on_screen players)
unfolding on_screen
IsDue-on_screen t dropmask inc [] = tt
IsDue-on_screen t dropmask inc (lp ∷ players) =
    (refl, ground arith, IsDue-on_screen t dropmask inc players)

-- What one loop leaves: the times, and the ids that are kicked.
abbrev Counted : Lobby → ℕ → ℕ → ℕ → List LagPlayer → List LagPlayer × List ℕ → Type 0
Counted l lag_timeout dropmask inc before (after, kicked) =
    (kicked ≡ newly_kicked l before after) × IsDue lag_timeout dropmask inc before after

if-Counted :
    (P : List LagPlayer × List ℕ → Type 0) (c : Bool) (x y : List LagPlayer × List ℕ)
    → (c ≡ true → P x)
    → (c ≡ false → P y)
    → P (if◌then◌else◌ {A = List LagPlayer × List ℕ} c x y)
if-Counted P true x y hx hy = hx refl
if-Counted P false x y hx hy = hy refl

count_time-Counted :
    (l : Lobby) (lag_timeout dropmask inc : ℕ) (lp : LagPlayer) (players : List LagPlayer)
    (rest : List LagPlayer × List ℕ)
    → lag_timeout ≤ 4294967295000000
    → lp.lag_duration_ms == kicked_ms ≡ false
    → Counted l lag_timeout dropmask inc players rest
    → let counted = count_time l lag_timeout dropmask lp ((lp.lag_duration_ms + inc) % 2 ^ 32) in
      Counted l lag_timeout dropmask inc (lp ∷ players) (counted.0 ∷ rest.0, counted.1 ++ rest.1)
count_time-Counted l lag_timeout dropmask inc lp players rest h e (k, d) =
    (ground (arith, h, e, k), (ground arith, ground (arith, h, e), d))

count_times-Counted :
    (l : Lobby) (lag_timeout dropmask inc : ℕ) (players : List LagPlayer)
    → lag_timeout ≤ 4294967295000000
    → Counted l lag_timeout dropmask inc players (count_times l lag_timeout dropmask inc players)
unfolding count_times
count_times-Counted l lag_timeout dropmask inc [] h = (refl, tt)
count_times-Counted l lag_timeout dropmask inc (lp ∷ players) h =
    let rest = count_times-Counted l lag_timeout dropmask inc players h in
    if-Counted (Counted l lag_timeout dropmask inc (lp ∷ players)) (lp.lag_duration_ms == kicked_ms)
      _ _ (λ e. (ground (arith, e, rest.0), (refl, ground (arith, e), rest.1)))
      λ e.
        if-Counted (Counted l lag_timeout dropmask inc (lp ∷ players)) (lp.lag_duration_ms == 0) _ _
          (λ z. (
            sym (newly_kicked-same l (lp ∷ players)),
            IsDue-same lag_timeout dropmask inc (lp ∷ players),
          ))
          λ z. count_time-Counted l lag_timeout dropmask inc lp players _ h e rest

abbrev WaitOk : Lobby → ℕ → ℕ → Laggers → Option (Laggers × List ℕ) → Type 0
WaitOk l lag_timeout inc g none = Unit
WaitOk l lag_timeout inc g (some (g', kicked)) =
    All (IsWaited lag_timeout) g'.players
    × (kicked ≡ newly_kicked l g.players g'.players)
    × IsDue lag_timeout g.dropmask inc g.players g'.players

show_screen-WaitOk :
    (l : Lobby) (lag_timeout inc : ℕ) (g : Laggers)
    → 15000000000 < lag_timeout
    → WaitOk l lag_timeout inc g (show_screen l g.players)
show_screen-WaitOk l lag_timeout inc g h = by_mask (set_droppers l l.slots 0)
  where
    cleared :
        (m : Option ℕ)
        → WaitOk l lag_timeout inc g
            (m >>= λ mask. some (record { players = on_screen g.players; dropmask = mask }, []))
    cleared none = tt
    cleared (some mask) = (
      on_screen-IsWaited lag_timeout g.players h,
      sym (newly_kicked-on_screen l g.players),
      IsDue-on_screen lag_timeout g.dropmask inc g.players,
    )

    by_mask :
        (m : Option ℕ)
        → WaitOk l lag_timeout inc g (
            m >>= λ all. clear_laggers g.players all >>= λ mask.
            some (record { players = on_screen g.players; dropmask = mask }, []))
    by_mask none = tt
    by_mask (some all) = cleared (clear_laggers g.players all)

-- For a lag limit of more than 15 seconds and at most 2 ^ 32 - 1 milliseconds: if every lagging
-- player is marked as kicked or has a time below the limit, then this also holds after
-- incLaggers, whatever time has passed. The lagging players stay the same ones. The players that
-- incLaggers kicks are exactly those that it marks and that are still in the lobby, in their
-- order, and it marks a player only when its time has reached the limit, or 25 seconds while
-- nobody can drop it.
pub inc_laggers-IsWaited :
    (l : Lobby) (lag_timeout inc : ℕ) (g g' : Laggers) (kicked : List ℕ)
    → 15000000000 < lag_timeout
    → lag_timeout ≤ 4294967295000000
    → All (IsWaited lag_timeout) g.players
    → inc_laggers l lag_timeout inc g ≡ some (g', kicked)
    → All (IsWaited lag_timeout) g'.players
      × (kicked ≡ newly_kicked l g.players g'.players)
      × IsDue lag_timeout g.dropmask inc g.players g'.players
unfolding inc_laggers
inc_laggers-IsWaited l lag_timeout inc g g' kicked h h' hs e =
    subst (WaitOk l lag_timeout inc g) e (by_screen (is_new_lagger g.players))
  where
    by_screen :
        (c : Bool)
        → WaitOk l lag_timeout inc g (
            if c
            then show_screen l g.players
            else some (
              record g { players = (count_times l lag_timeout g.dropmask inc g.players).0 },
              (count_times l lag_timeout g.dropmask inc g.players).1,
            ))
    by_screen true = show_screen-WaitOk l lag_timeout inc g h
    by_screen false =
        let counted = count_times-Counted l lag_timeout g.dropmask inc g.players h' in
        (count_times-IsWaited l lag_timeout g.dropmask inc g.players hs, counted.0, counted.1)
