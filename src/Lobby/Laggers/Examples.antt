-- ===== src/Lobby/Laggers/Examples.antt =====
-- Three players, of which two are lagging.
use gowarcraft.Prelude.{ℕ, ◌≡◌, ◌++◌, ◌∷◌, [], true, some, refl, arith, All}
use gowarcraft.W3gs.Lag.{LagPlayer}
use gowarcraft.Lobby.Slots.{Lobby}
use gowarcraft.Lobby.Laggers.{Laggers, on_stop_lag, notice, inc_laggers, count_times}
use gowarcraft.Lobby.Laggers.Stopping.{on_stop_lag-one}
use gowarcraft.Lobby.Laggers.Waiting.{IsWaited, IsDue, newly_kicked, inc_laggers-IsWaited}

abbrev lagger : ℕ → ℕ → LagPlayer
lagger pid ms = record { player_id = pid; lag_duration_ms = ms }

abbrev small_lobby : Lobby
small_lobby = record {
  slots = [];
  slot_base = record { slots = []; random_seed = 7; slot_layout = 0; num_players = 3 };
  players = 1 ∷ 2 ∷ 3 ∷ [];
  locked = true;
  obs_team = 24;
  color_set = 16777215;
}

abbrev waiting_for : ℕ → ℕ → Laggers
waiting_for a b = record { players = lagger 1 a ∷ lagger 3 b ∷ []; dropmask = 2 }

on_stop_lag-one_example :
    on_stop_lag 3 ((lagger 1 20 ∷ []) ++ lagger 3 20 ∷ lagger 2 20 ∷ [])
    ≡ some ((lagger 1 20 ∷ []) ++ lagger 2 20 ∷ [], notice (lagger 3 20))
on_stop_lag-one_example =
    on_stop_lag-one 3 (lagger 1 20 ∷ []) (lagger 2 20 ∷ []) (lagger 3 20) (refl, tt) refl (refl, tt)

-- LagTimeout is one minute, and the first player has passed it.
inc_laggers-IsWaited_example :
    All (IsWaited 60000000000) (waiting_for 4294967295 15025).players
    × (1 ∷ []
        ≡ newly_kicked small_lobby
            (waiting_for 59990 15000).players
            (waiting_for 4294967295 15025).players)
    × IsDue 60000000000 2 25
        (waiting_for 59990 15000).players
        (waiting_for 4294967295 15025).players
unfolding inc_laggers count_times
inc_laggers-IsWaited_example =
    inc_laggers-IsWaited small_lobby 60000000000 25 (waiting_for 59990 15000)
      (waiting_for 4294967295 15025) (1 ∷ []) (omega arith) (omega arith) (refl, (refl, tt)) refl
