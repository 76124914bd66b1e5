-- ===== src/Network/Lan/Games/Keys.antt =====
-- The keys of the list, and the record of a key after each handler.
use gowarcraft.Prelude.{ℕ, ◌≡◌, Bool, true, Option, some, none, if◌then◌else◌, arith}
use gowarcraft.Protocol.Go.{Bytes}
use gowarcraft.W3gs.GameInfo.{GameInfo}
use gowarcraft.W3gs.Listing.{CreateGame, RefreshGame, DecreateGame}
use gowarcraft.Network.Events.{same}
use gowarcraft.Network.Events.Ids.{same_refl, same-eq}
use gowarcraft.Dict.{lookup, IsKey, IsDict, assign-IsDict, filter-IsDict, lookup-assign}
use gowarcraft.Network.Lan.Games.{
  Index, same_index, GameRecord, GameList, Handled, index, store, refresh_known, on_refresh_game,
  on_create_game, on_decreate_game, on_game_info, expire,
}

pub same-IsKey : IsKey same
same-IsKey = record { self = same_refl; same = same-eq }

same_index-eq : (i j : Index) → same_index i j ≡ true → i ≡ j
same_index-eq i j h = ground (arith, h, same-eq i.source j.source)

pub same_index-IsKey : IsKey same_index
same_index-IsKey = record { self = λ i. ground (arith, same_refl i.source); same = same_index-eq }

-- What the list has at an index.
abbrev pub at : Index → GameList → Option GameRecord
at idx g = lookup same_index idx g.games

-- No index stands twice.
abbrev pub IsList : GameList → Type 0
IsList g = IsDict same_index same_index-IsKey g.games

pub at-store :
    (i idx : Index) (game : GameRecord) (g : GameList)
    → at i (store idx game g) ≡ (if same_index i idx then some game else at i g)
at-store i idx game g = lookup-assign same_index same_index-IsKey i idx game g.games

pub at-store_self :
    (idx : Index) (game : GameRecord) (g : GameList) → at idx (store idx game g) ≡ some game
at-store_self idx game g = ground (arith, at-store idx idx game g, same_index-IsKey.self idx)

store-IsList :
    (idx : Index) (game : GameRecord) (g : GameList) → IsList g → IsList (store idx game g)
store-IsList idx game g v = assign-IsDict same_index same_index-IsKey idx game g.games v

-- The handlers and the timer of the list.
pub data Notice : Type 0 where
  refreshes : ℕ → Bytes → RefreshGame → Notice
  creates : ℕ → Bytes → CreateGame → Notice
  decreates : Bytes → DecreateGame → Notice
  informs : ℕ → Bytes → GameInfo → Notice
  expires : ℕ → Notice

abbrev pub timed : GameList × Bool → Handled
timed (g, update) = record { list = g; update = update; search = none }

abbrev pub handle : Notice → GameList → Handled
handle (refreshes now source pkt) g = on_refresh_game now source pkt g
handle (creates now source pkt) g = on_create_game now source pkt g
handle (decreates source pkt) g = on_decreate_game source pkt g
handle (informs now source pkt) g = on_game_info now source pkt g
handle (expires now) g = timed (expire now g)

refresh_known-IsList :
    (now : ℕ) (idx : Index) (pkt : RefreshGame) (g : GameList) (o : Option GameRecord)
    → IsList g
    → IsList (refresh_known now idx pkt g o).list
unfolding refresh_known
refresh_known-IsList now idx pkt g none v = store-IsList idx _ g v
refresh_known-IsList now idx pkt g (some game) v = store-IsList idx _ g v

pub handle-IsList : (n : Notice) (g : GameList) → IsList g → IsList (handle n g).list
unfolding on_refresh_game on_create_game on_decreate_game on_game_info expire
handle-IsList (refreshes now source pkt) g v =
    refresh_known-IsList now (index source pkt.host_counter) pkt g _ v
handle-IsList (creates now source pkt) g v = store-IsList _ _ g v
handle-IsList (decreates source pkt) g v = filter-IsDict same_index same_index-IsKey _ g.games v
handle-IsList (informs now source pkt) g v = store-IsList _ _ g v
handle-IsList (expires now) g v = filter-IsDict same_index same_index-IsKey _ g.games v
