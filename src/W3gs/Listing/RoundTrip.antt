-- ===== src/W3gs/Listing/RoundTrip.antt =====
-- SearchGame, CreateGame, RefreshGame and DecreateGame: Serialize followed by Deserialize.
use gowarcraft.Prelude.{IsU32, ◌≡◌, [], arith}
use gowarcraft.Protocol.Go.{◌>>=◌, done}
use gowarcraft.W3gs.Header.{header_calls}
use gowarcraft.W3gs.Listing.{
  SearchGame, serialize_search_game, deserialize_search_game, CreateGame, serialize_create_game,
  deserialize_create_game, RefreshGame, serialize_refresh_game, deserialize_refresh_game,
  DecreateGame, serialize_decreate_game, deserialize_decreate_game,
}

pub record ValidSearchGame (p : SearchGame) : Type 0 where
  pub product : IsU32 p.product
  pub version : IsU32 p.version
  pub host_counter : IsU32 p.host_counter

pub search_game_round_trip :
    (p : SearchGame)
    → ValidSearchGame p
    → (serialize_search_game p >>= λ _. deserialize_search_game) [] ≡ done p []
unfolding serialize_search_game deserialize_search_game header_calls
search_game_round_trip p h = ground arith

pub record ValidCreateGame (p : CreateGame) : Type 0 where
  pub product : IsU32 p.product
  pub version : IsU32 p.version
  pub host_counter : IsU32 p.host_counter

pub create_game_round_trip :
    (p : CreateGame)
    → ValidCreateGame p
    → (serialize_create_game p >>= λ _. deserialize_create_game) [] ≡ done p []
unfolding serialize_create_game deserialize_create_game header_calls
create_game_round_trip p h = ground arith

pub record ValidRefreshGame (p : RefreshGame) : Type 0 where
  pub host_counter : IsU32 p.host_counter
  pub slots_used : IsU32 p.slots_used
  pub slots_available : IsU32 p.slots_available

pub refresh_game_round_trip :
    (p : RefreshGame)
    → ValidRefreshGame p
    → (serialize_refresh_game p >>= λ _. deserialize_refresh_game) [] ≡ done p []
unfolding serialize_refresh_game deserialize_refresh_game header_calls
refresh_game_round_trip p h = ground arith

pub record ValidDecreateGame (p : DecreateGame) : Type 0 where
  pub host_counter : IsU32 p.host_counter

pub decreate_game_round_trip :
    (p : DecreateGame)
    → ValidDecreateGame p
    → (serialize_decreate_game p >>= λ _. deserialize_decreate_game) [] ≡ done p []
unfolding serialize_decreate_game deserialize_decreate_game header_calls
decreate_game_round_trip p h = ground arith

-- For each SearchGame, CreateGame, RefreshGame and DecreateGame, Serialize on an empty buffer
-- and then Deserialize returns the same packet and leaves the buffer empty, if its numbers fit
-- their fields.
pub listing_round_trips :
    (a : SearchGame) (b : CreateGame) (c : RefreshGame) (d : DecreateGame)
    → ValidSearchGame a
    → ValidCreateGame b
    → ValidRefreshGame c
    → ValidDecreateGame d
    → ((serialize_search_game a >>= λ _. deserialize_search_game) [] ≡ done a [])
      × ((serialize_create_game b >>= λ _. deserialize_create_game) [] ≡ done b [])
      × ((serialize_refresh_game c >>= λ _. deserialize_refresh_game) [] ≡ done c [])
      × ((serialize_decreate_game d >>= λ _. deserialize_decreate_game) [] ≡ done d [])
listing_round_trips a b c d ha hb hc hd = (
  search_game_round_trip a ha,
  create_game_round_trip b hb,
  refresh_game_round_trip c hc,
  decreate_game_round_trip d hd,
)
