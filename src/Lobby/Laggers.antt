-- ===== src/Lobby/Laggers.antt =====
-- network/lobby/game.go: the players that are lagging. None is a panic.
pub mod Stopping
pub mod Waiting
mod Examples
use gowarcraft.Prelude.{
  ℕ, zero, suc, ◌+◌, ◌-◌, ◌*◌, ◌%◌, ◌^◌, ◌==◌, ◌&&◌, ◌||◌, ◌++◌, not, Bool, true, false, Option,
  some, none, ltb, leb, if◌then◌else◌, List, [], ◌∷◌, length, take, drop,
}
use gowarcraft.Protocol.BitSet.{insert, clear}
use gowarcraft.W3gs.Slots.{SlotData}
use gowarcraft.W3gs.Lag.{LagPlayer}
use gowarcraft.Lobby.Slots.{Lobby, Result, ok, err, panic, get_slot, pid_to_sid, is_playing}
use gowarcraft.Lobby.Changes.{contains}
use gowarcraft.Lobby.Desync.{◌>>=◌}

-- g.laggers.Players and g.dropmask.
pub record Laggers : Type 0 where
  pub players : List LagPlayer
  pub dropmask : ℕ

abbrev pub add_lagger : ℕ → Laggers → Laggers
add_lagger pid g = record g {
  players = g.players ++ record { player_id = pid; lag_duration_ms = 0 } ∷ [];
}

-- Observers do not lag, unless LagObservers is set.
abbrev pub unless_observer : Lobby → ℕ → Laggers → Result ℕ → Option Laggers
unless_observer l pid g (ok sid) =
    some (if (get_slot l.slots sid).team == l.obs_team then g else add_lagger pid g)
unless_observer l pid g (err e) = none
unless_observer l pid g panic = none

unfoldable pub on_start_lag : Bool → Lobby → ℕ → Laggers → Option Laggers
on_start_lag lag_observers l pid g =
    if lag_observers then some (add_lagger pid g) else unless_observer l pid g (pid_to_sid l pid)

-- The slice of onStopLag. The range keeps to the array of the first length, while the loop shifts
-- its elements and shortens the slice.
pub record Slice : Type 0 where
  pub items : List LagPlayer
  pub len : ℕ
  pub stopped : List LagPlayer

-- append(items[:i], items[i+1:]...), which writes into the array.
abbrev pub shift : ℕ → Slice → List LagPlayer
shift i s = take i s.items ++ drop (i + 1) (take s.len s.items) ++ drop (s.len - 1) s.items

abbrev pub notice : LagPlayer → List LagPlayer
notice lp = if ltb 0 lp.lag_duration_ms then lp ∷ [] else []

abbrev pub stop_lagger : ℕ → LagPlayer → Slice → Option Slice
stop_lagger i lp s =
    if ltb s.len (i + 1)
    then none
    else some (record { items = shift i s; len = s.len - 1; stopped = s.stopped ++ notice lp })

-- One turn of the loop, at the element `lp` of index `i`.
abbrev pub stop_if : ℕ → ℕ → List LagPlayer → Slice → Option Slice
stop_if pid i [] s = none
stop_if pid i (lp ∷ items) s = if lp.player_id == pid then stop_lagger i lp s else some s

unfoldable pub stop_loop : ℕ → ℕ → ℕ → Slice → Option Slice
stop_loop pid zero i s = some s
stop_loop pid (suc n) i s = stop_if pid i (drop i s.items) s >>= stop_loop pid n (i + 1)

-- The players that are left, and those whose StopLag is sent.
unfoldable pub on_stop_lag : ℕ → List LagPlayer → Option (List LagPlayer × List LagPlayer)
on_stop_lag pid players =
    stop_loop pid (length players) 0
      (record { items = players; len = length players; stopped = [] })
    >>= λ s. some (take s.len s.items, s.stopped)

unfoldable pub on_drop_laggers : ℕ → Laggers → Option Laggers
on_drop_laggers pid g = clear 32 g.dropmask pid >>= λ mask. some (record g { dropmask = mask })

-- math.MaxUint32, the time of a player that has been kicked.
abbrev pub kicked_ms : ℕ
kicked_ms = 2 ^ 32 - 1

-- incLaggers, where the first player has no time yet: a new lag screen. A slot's player may drop
-- the others.
abbrev pub set_dropper : Lobby → SlotData → ℕ → Option ℕ
set_dropper l s mask =
    if is_playing l.obs_team s && contains l.players s.player_id
    then insert 32 mask s.player_id
    else some mask

unfoldable pub set_droppers : Lobby → List SlotData → ℕ → Option ℕ
set_droppers l [] mask = some mask
set_droppers l (s ∷ slots) mask = set_dropper l s mask >>= set_droppers l slots

unfoldable pub clear_laggers : List LagPlayer → ℕ → Option ℕ
clear_laggers [] mask = some mask
clear_laggers (lp ∷ players) mask = clear 32 mask lp.player_id >>= clear_laggers players

unfoldable pub on_screen : List LagPlayer → List LagPlayer
on_screen [] = []
on_screen (lp ∷ players) = record lp { lag_duration_ms = 15000 } ∷ on_screen players

abbrev pub show_screen : Lobby → List LagPlayer → Option (Laggers × List ℕ)
show_screen l players = set_droppers l l.slots 0 >>= λ all. clear_laggers players all >>= λ mask.
    some (record { players = on_screen players; dropmask = mask }, [])

-- LagTimeout is in nanoseconds.
abbrev pub is_overdue : ℕ → ℕ → ℕ → Bool
is_overdue lag_timeout dropmask ms = leb lag_timeout (ms * 1000000) || leb 25000 ms && dropmask == 0

-- The loop over the players that have a time, and the ids of those that are kicked.
abbrev pub kick_lagger : Lobby → ℕ → List ℕ
kick_lagger l pid = if contains l.players pid then pid ∷ [] else []

abbrev pub count_time : Lobby → ℕ → ℕ → LagPlayer → ℕ → LagPlayer × List ℕ
count_time l lag_timeout dropmask lp ms =
    if is_overdue lag_timeout dropmask ms
    then (record lp { lag_duration_ms = kicked_ms }, kick_lagger l lp.player_id)
    else (record lp { lag_duration_ms = ms }, [])

unfoldable pub count_times : Lobby → ℕ → ℕ → ℕ → List LagPlayer → List LagPlayer × List ℕ
count_times l lag_timeout dropmask inc [] = ([], [])
count_times l lag_timeout dropmask inc (lp ∷ players) =
    let rest = count_times l lag_timeout dropmask inc players in
    let counted = count_time l lag_timeout dropmask lp ((lp.lag_duration_ms + inc) % 2 ^ 32) in
    if lp.lag_duration_ms == kicked_ms
    then (lp ∷ rest.0, rest.1)
    else (if lp.lag_duration_ms == 0
        then (lp ∷ players, [])
        else (counted.0 ∷ rest.0, counted.1 ++ rest.1))

abbrev pub is_new_lagger : List LagPlayer → Bool
is_new_lagger [] = false
is_new_lagger (lp ∷ players) = lp.lag_duration_ms == 0

unfoldable pub inc_laggers : Lobby → ℕ → ℕ → Laggers → Option (Laggers × List ℕ)
inc_laggers l lag_timeout inc g =
    if is_new_lagger g.players
    then show_screen l g.players
    else (let counted = count_times l lag_timeout g.dropmask inc g.players in
        some (record g { players = counted.0 }, counted.1))
