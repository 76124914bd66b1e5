-- ===== src/W3gs/Listing/Safety.antt =====
-- SearchGame, CreateGame, RefreshGame and DecreateGame: Deserialize on any bytes.
use gowarcraft.Prelude.{arith}
use gowarcraft.Protocol.Go.{Bytes, NoPanic}
use gowarcraft.W3gs.Header.{header_calls}
use gowarcraft.W3gs.Listing.{
  deserialize_search_game, deserialize_create_game, deserialize_refresh_game,
  deserialize_decreate_game,
}

pub deserialize_search_game-NoPanic : (b : Bytes) → NoPanic (deserialize_search_game b)
unfolding deserialize_search_game header_calls
deserialize_search_game-NoPanic b = ground arith

pub deserialize_create_game-NoPanic : (b : Bytes) → NoPanic (deserialize_create_game b)
unfolding deserialize_create_game header_calls
deserialize_create_game-NoPanic b = ground arith

pub deserialize_refresh_game-NoPanic : (b : Bytes) → NoPanic (deserialize_refresh_game b)
unfolding deserialize_refresh_game header_calls
deserialize_refresh_game-NoPanic b = ground arith

pub deserialize_decreate_game-NoPanic : (b : Bytes) → NoPanic (deserialize_decreate_game b)
unfolding deserialize_decreate_game header_calls
deserialize_decreate_game-NoPanic b = ground arith
