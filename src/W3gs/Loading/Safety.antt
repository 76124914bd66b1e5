-- ===== src/W3gs/Loading/Safety.antt =====
-- CountDownStart, CountDownEnd, GameLoaded, PlayerLoaded and GameOver: Deserialize on any bytes.
use gowarcraft.Prelude.{arith}
use gowarcraft.Protocol.Go.{Bytes, NoPanic}
use gowarcraft.W3gs.Header.{header_calls}
use gowarcraft.W3gs.Loading.{
  deserialize_count_down_start, deserialize_count_down_end, deserialize_game_loaded,
  deserialize_player_loaded, deserialize_game_over,
}

pub deserialize_count_down_start-NoPanic : (b : Bytes) → NoPanic (deserialize_count_down_start b)
unfolding deserialize_count_down_start header_calls
deserialize_count_down_start-NoPanic b = ground arith

pub deserialize_count_down_end-NoPanic : (b : Bytes) → NoPanic (deserialize_count_down_end b)
unfolding deserialize_count_down_end header_calls
deserialize_count_down_end-NoPanic b = ground arith

pub deserialize_game_loaded-NoPanic : (b : Bytes) → NoPanic (deserialize_game_loaded b)
unfolding deserialize_game_loaded header_calls
deserialize_game_loaded-NoPanic b = ground arith

pub deserialize_player_loaded-NoPanic : (b : Bytes) → NoPanic (deserialize_player_loaded b)
unfolding deserialize_player_loaded header_calls
deserialize_player_loaded-NoPanic b = ground arith

pub deserialize_game_over-NoPanic : (b : Bytes) → NoPanic (deserialize_game_over b)
unfolding deserialize_game_over header_calls
deserialize_game_over-NoPanic b = ground arith
