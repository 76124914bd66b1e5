-- ===== src/Network/Lan/Examples.antt =====
-- Two hosts in a local network, and a list of their games.
use gowarcraft.Prelude.{ℕ, ◌-◌, ◌*◌, ◌/◌, ◌≡◌, ◌++◌, true, none, some, [], ◌∷◌, All, arith, refl}
use gowarcraft.Protocol.Go.{Bytes}
use gowarcraft.W3gs.GameInfo.{GameInfo}
use gowarcraft.W3gs.Listing.{RefreshGame}
use gowarcraft.Network.Events.{same}
use gowarcraft.Network.Lan.Games.{
  Index, GameRecord, GameList, index, second, zero_info, games, expire, on_game_info,
  on_refresh_game, on_decreate_game,
}
use gowarcraft.Network.Lan.Games.Keys.{at, IsList, expires, handle}
use gowarcraft.Network.Lan.Games.Expiry.{expire-on_game_info}
use gowarcraft.Network.Lan.Games.Silence.{view, handle-view}
use gowarcraft.Network.Lan.Games.Youngest.{IsCovered, all_of, is_from, games-IsCovered}
use gowarcraft.Network.Lan.Games.Created.{created_at, refreshed-created}
use gowarcraft.Network.Lan.Advertising.{Advertiser, decreate}
use gowarcraft.Network.Lan.Discovery.{
  discover, listed_info, announce, discover-listed, follow-listed,
}

abbrev alice : Bytes
alice = 65 ∷ []

abbrev bert : Bytes
bert = 66 ∷ []

abbrev game : GameInfo
game = record zero_info {
  game_version = record { product = 0x57335850; version = 26 };
  host_counter = 1;
  game_name = 103 ∷ 97 ∷ 109 ∷ 101 ∷ [];
  slots_used = 1;
  slots_available = 12;
  uptime_sec = 3;
  game_port = 6112;
}

abbrev other_game : GameInfo
other_game = record game { host_counter = 2; game_port = 6113 }

abbrev listed : Index × GameRecord
listed = (index alice 1, record { info = game; created = 100 * second; expires = 900 * second })

-- The same host again, with a younger game.
abbrev again : Index × GameRecord
again = (index alice 7, record { info = game; created = 300 * second; expires = 950 * second })

abbrev list : GameList
list = record {
  games = listed ∷ again ∷ [];
  game_version = game.game_version;
  broadcast_interval = 15 * second;
}

list-IsList : IsList list
unfolding same
list-IsList = (refl, (refl, tt))

abbrev host_port : Bytes → ℕ → Bytes
host_port source port = source ++ port ∷ []

abbrev uptime : ℕ → ℕ → ℕ
uptime now created = (now - created) / second

abbrev advertiser : Advertiser
advertiser = record { info = other_game; created = 200 * second }

abbrev first_advertiser : Advertiser
first_advertiser = record { info = game; created = 100 * second }

games-IsCovered_example :
    All
      (IsCovered host_port uptime
        (500 * second)
        list
        (games host_port uptime (500 * second) list).1)
      (listed ∷ again ∷ [])
    × (all_of
          (is_from host_port uptime (500 * second) list (listed ∷ again ∷ []))
          (games host_port uptime (500 * second) list).1
        ≡ true)
games-IsCovered_example = games-IsCovered host_port uptime (500 * second) list

expire-on_game_info_example :
    (v : GameRecord) × (v.info ≡ other_game)
    × (at
          (index bert 2)
          (expire (519 * second) (on_game_info (500 * second) bert other_game list).list).0
        ≡ some v)
expire-on_game_info_example =
    expire-on_game_info (500 * second) (519 * second) bert other_game list list-IsList

handle-view_example :
    view (handle (expires (600 * second)) list).list (index alice 1) ≡ view list (index alice 1)
unfolding expire
handle-view_example = handle-view (expires (600 * second)) list (index alice 1) refl refl

discover-listed_example :
    ((discover uptime 500 501 502 bert advertiser list).1.update ≡ true)
    × (listed_info (at (index bert 2) (discover uptime 500 501 502 bert advertiser list).1.list)
        ≡ some (discover uptime 500 501 502 bert advertiser list).0.info)
discover-listed_example =
    discover-listed uptime 500 501 502 bert advertiser list refl (ground arith)

follow-listed_example :
    ((announce 500 alice 2 10 first_advertiser list).1.update ≡ true)
    × (listed_info (at (index alice 1) (announce 500 alice 2 10 first_advertiser list).1.list)
        ≡ some (announce 500 alice 2 10 first_advertiser list).0.info)
    × (at (index alice 1) (on_decreate_game alice (decreate first_advertiser) list).list ≡ none)
    × ((on_decreate_game alice (decreate first_advertiser) list).update ≡ true)
unfolding same
follow-listed_example = follow-listed 500 2 10 alice first_advertiser list refl refl

abbrev refresh_two : RefreshGame
refresh_two = record { host_counter = 2; slots_used = 1; slots_available = 12 }

refreshed-created_example :
    created_at (
      at
        (index bert 2)
        (on_game_info 600 bert other_game (on_refresh_game 500 bert refresh_two list).list).list)
    ≡ some 0
unfolding same
refreshed-created_example = refreshed-created 500 600 bert refresh_two other_game list refl refl
