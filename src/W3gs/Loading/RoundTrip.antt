-- ===== src/W3gs/Loading/RoundTrip.antt =====
-- CountDownStart, CountDownEnd, GameLoaded, PlayerLoaded and GameOver: Serialize followed by Deserialize.
use gowarcraft.Prelude.{IsU8, ◌≡◌, [], arith}
use gowarcraft.Protocol.Go.{◌>>=◌, done}
use gowarcraft.W3gs.Header.{header_calls}
use gowarcraft.W3gs.Loading.{
  serialize_count_down_start, deserialize_count_down_start, serialize_count_down_end,
  deserialize_count_down_end, serialize_game_loaded, deserialize_game_loaded, PlayerLoaded,
  serialize_player_loaded, deserialize_player_loaded, GameOver, serialize_game_over,
  deserialize_game_over,
}

pub count_down_start_round_trip :
    (serialize_count_down_start tt >>= λ _. deserialize_count_down_start) [] ≡ done tt []
unfolding serialize_count_down_start deserialize_count_down_start header_calls
count_down_start_round_trip = ground arith

pub count_down_end_round_trip :
    (serialize_count_down_end tt >>= λ _. deserialize_count_down_end) [] ≡ done tt []
unfolding serialize_count_down_end deserialize_count_down_end header_calls
count_down_end_round_trip = ground arith

pub game_loaded_round_trip :
    (serialize_game_loaded tt >>= λ _. deserialize_game_loaded) [] ≡ done tt []
unfolding serialize_game_loaded deserialize_game_loaded header_calls
game_loaded_round_trip = ground arith

pub record ValidPlayerLoaded (p : PlayerLoaded) : Type 0 where
  pub player_id : IsU8 p.player_id

pub player_loaded_round_trip :
    (p : PlayerLoaded)
    → ValidPlayerLoaded p
    → (serialize_player_loaded p >>= λ _. deserialize_player_loaded) [] ≡ done p []
unfolding serialize_player_loaded deserialize_player_loaded header_calls
player_loaded_round_trip p h = ground arith

pub record ValidGameOver (p : GameOver) : Type 0 where
  pub player_id : IsU8 p.player_id

pub game_over_round_trip :
    (p : GameOver)
    → ValidGameOver p
    → (serialize_game_over p >>= λ _. deserialize_game_over) [] ≡ done p []
unfolding serialize_game_over deserialize_game_over header_calls
game_over_round_trip p h = ground arith

-- For each CountDownStart, CountDownEnd, GameLoaded, PlayerLoaded and GameOver, Serialize on an
-- empty buffer and then Deserialize returns the same packet and leaves the buffer empty, if its
-- numbers fit their fields.
pub loading_round_trips :
    (a : PlayerLoaded) (b : GameOver)
    → ValidPlayerLoaded a
    → ValidGameOver b
    → ((serialize_count_down_start tt >>= λ _. deserialize_count_down_start) [] ≡ done tt [])
      × ((serialize_count_down_end tt >>= λ _. deserialize_count_down_end) [] ≡ done tt [])
      × ((serialize_game_loaded tt >>= λ _. deserialize_game_loaded) [] ≡ done tt [])
      × ((serialize_player_loaded a >>= λ _. deserialize_player_loaded) [] ≡ done a [])
      × ((serialize_game_over b >>= λ _. deserialize_game_over) [] ≡ done b [])
loading_round_trips a b ha hb = (
  count_down_start_round_trip,
  count_down_end_round_trip,
  game_loaded_round_trip,
  player_loaded_round_trip a ha,
  game_over_round_trip b hb,
)
