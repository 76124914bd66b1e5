-- ===== src/Network/Lan/Games.antt =====
-- network/lan/gamelist_udp.go: the list of the games in the local network. A time is the number of
-- nanoseconds since the zero time of Go, which is time.Time{}; `now` is what time.Now() answers.
pub mod Keys
pub mod Expiry
pub mod Silence
pub mod Youngest
pub mod Created
use gowarcraft.Prelude.{
  ℕ, ◌+◌, ◌-◌, ◌*◌, ◌==◌, ◌&&◌, ◌||◌, not, Bool, true, false, ltb, Option, some, none,
  if◌then◌else◌, List, [], ◌∷◌,
}
use gowarcraft.Protocol.Go.{Bytes}
use gowarcraft.W3gs.GameInfo.{GameVersion, GameSettings, GameInfo, zero_sha1}
use gowarcraft.W3gs.Listing.{SearchGame, CreateGame, RefreshGame, DecreateGame}
use gowarcraft.Network.Events.{same}
use gowarcraft.Dict.{lookup, assign, filter, erase}

-- udpIndex and udpRecord.
pub record Index : Type 0 where
  pub source : Bytes
  pub game_id : ℕ

abbrev pub same_index : Index → Index → Bool
same_index i j = same i.source j.source && i.game_id == j.game_id

pub record GameRecord : Type 0 where
  pub info : GameInfo
  pub created : ℕ
  pub expires : ℕ

pub record GameList : Type 0 where
  pub games : List (Index × GameRecord)
  pub game_version : GameVersion
  pub broadcast_interval : ℕ

abbrev pub second : ℕ
second = 1000000000

abbrev pub minute : ℕ
minute = 60000000000

-- Comparisons of structs.
abbrev pub same_version : GameVersion → GameVersion → Bool
same_version v w = v.product == w.product && v.version == w.version

abbrev pub same_settings : GameSettings → GameSettings → Bool
same_settings s t =
    s.flags == t.flags
    && s.map_width == t.map_width
    && s.map_height == t.map_height
    && s.map_xoro == t.map_xoro
    && same s.map_path t.map_path
    && same s.host_name t.host_name
    && same s.map_sha1 t.map_sha1

unfoldable pub same_info : GameInfo → GameInfo → Bool
same_info p q =
    same_version p.game_version q.game_version
    && p.host_counter == q.host_counter
    && p.entry_key == q.entry_key
    && same p.game_name q.game_name
    && same_settings p.game_settings q.game_settings
    && p.slots_total == q.slots_total
    && p.game_flags == q.game_flags
    && p.slots_used == q.slots_used
    && p.slots_available == q.slots_available
    && p.uptime_sec == q.uptime_sec
    && p.game_port == q.game_port

-- The GameInfo of a new record.
abbrev pub zero_info : GameInfo
zero_info = record {
  game_version = record { product = 0; version = 0 };
  host_counter = 0;
  entry_key = 0;
  game_name = [];
  game_settings = record {
    flags = 0;
    map_width = 0;
    map_height = 0;
    map_xoro = 0;
    map_path = [];
    host_name = [];
    map_sha1 = zero_sha1;
  };
  slots_total = 0;
  game_flags = 0;
  slots_used = 0;
  slots_available = 0;
  uptime_sec = 0;
  game_port = 0;
}

abbrev pub placeholder : (created expires : ℕ) → GameRecord
placeholder created expires = record { info = zero_info; created = created; expires = expires }

-- What a handler leaves: the list, whether it fires Update, and the packet that it sends back.
pub record Handled : Type 0 where
  pub list : GameList
  pub update : Bool
  pub search : Option SearchGame

abbrev pub store : Index → GameRecord → GameList → GameList
store idx game g = record g { games = assign same_index idx game g.games }

abbrev pub search_for : GameList → ℕ → SearchGame
search_for g host_counter = record {
  product = g.game_version.product;
  version = g.game_version.version;
  host_counter = host_counter;
}

-- onRefreshGame, with the record of the game.
abbrev pub refresh_record : ℕ → RefreshGame → GameList → GameRecord → GameRecord
refresh_record now pkt g game = record game {
  expires = now + (g.broadcast_interval + 5 * second);
  info = record game.info { slots_used = pkt.slots_used; slots_available = pkt.slots_available };
}

unfoldable pub refresh_known : ℕ → Index → RefreshGame → GameList → Option GameRecord → Handled
refresh_known now idx pkt g (some game) = record {
  list = store idx (refresh_record now pkt g game) g;
  update =
      not
        (game.info.slots_used == pkt.slots_used && game.info.slots_available == pkt.slots_available)
      && same_version game.info.game_version g.game_version;
  search = none;
}
refresh_known now idx pkt g none = record {
  list = store idx (placeholder 0 (now + 5 * minute)) g;
  update = false;
  search = some (search_for g pkt.host_counter);
}

abbrev pub index : Bytes → ℕ → Index
index source host_counter = record { source = source; game_id = host_counter }

unfoldable pub on_refresh_game : ℕ → Bytes → RefreshGame → GameList → Handled
on_refresh_game now source pkt g =
    let idx = index source pkt.host_counter in
    refresh_known now idx pkt g (lookup same_index idx g.games)

abbrev pub created_version : CreateGame → GameVersion
created_version pkt = record { product = pkt.product; version = pkt.version }

unfoldable pub on_create_game : ℕ → Bytes → CreateGame → GameList → Handled
on_create_game now source pkt g = record {
  list = store (index source pkt.host_counter) (placeholder now (now + 5 * minute)) g;
  update = false;
  search =
      if same_version (created_version pkt) g.game_version
      then some (search_for g pkt.host_counter)
      else none;
}

abbrev pub has_version : GameList → Option GameRecord → Bool
has_version g none = false
has_version g (some game) = same_version game.info.game_version g.game_version

unfoldable pub on_decreate_game : Bytes → DecreateGame → GameList → Handled
on_decreate_game source pkt g =
    let idx = index source pkt.host_counter in
    record {
      list = record g { games = erase same_index idx g.games };
      update = has_version g (lookup same_index idx g.games);
      search = none;
    }

abbrev pub known_or_new : ℕ → GameInfo → Option GameRecord → GameRecord
known_or_new now pkt (some game) = game
known_or_new now pkt none = placeholder (now - pkt.uptime_sec * second) 0

unfoldable pub on_game_info : ℕ → Bytes → GameInfo → GameList → Handled
on_game_info now source pkt g =
    let idx = index source pkt.host_counter in
    let game = known_or_new now pkt (lookup same_index idx g.games) in
    record {
      list =
          store idx
            (record game { info = pkt; expires = now + (g.broadcast_interval + 5 * second) }) g;
      update = same_version pkt.game_version g.game_version && not (same_info game.info pkt);
      search = none;
    }

-- expire, and whether it fires Update.
abbrev pub is_expired : ℕ → GameRecord → Bool
is_expired now game = ltb game.expires now

abbrev pub any_expired : ℕ → List (Index × GameRecord) → Bool
any_expired now [] = false
any_expired now ((idx, game) ∷ games) = is_expired now game || any_expired now games

unfoldable pub expire : ℕ → GameList → GameList × Bool
expire now g = (
  record g { games = filter (λ idx game. not (is_expired now game)) g.games },
  any_expired now g.games,
)

-- Games. The text of the address of a host is made by net.SplitHostPort and fmt.Sprintf, and the
-- seconds of a duration are a floating-point number that is converted: both are parameters.
abbrev pub is_listed : GameList → GameRecord → Bool
is_listed g v = same_version v.info.game_version g.game_version && not (v.info.game_port == 0)

abbrev pub is_younger : Option GameInfo → ℕ → Bool
is_younger none uptime = false
is_younger (some r) uptime = ltb r.uptime_sec uptime

abbrev pub add_listed : Bytes → GameInfo → List (Bytes × GameInfo) → List (Bytes × GameInfo)
add_listed host info res =
    if is_younger (lookup same host res) info.uptime_sec then res else assign same host info res

module _ (host_port : Bytes → ℕ → Bytes) (uptime : ℕ → ℕ → ℕ) where
  abbrev pub with_uptime : ℕ → GameRecord → GameRecord
  with_uptime now v = record v { info = record v.info { uptime_sec = uptime now v.created } }

  abbrev pub add_game :
      ℕ → GameList → Index → GameRecord → List (Bytes × GameInfo) → List (Bytes × GameInfo)
  add_game now g k v res =
      if is_listed g v
      then add_listed (host_port k.source v.info.game_port) (with_uptime now v).info res
      else res

  unfoldable pub add_games :
      ℕ → GameList → List (Index × GameRecord) → List (Bytes × GameInfo) → List (Bytes × GameInfo)
  add_games now g [] res = res
  add_games now g ((k, v) ∷ games) res = add_games now g games (add_game now g k v res)

  -- The records keep the uptimes that are computed.
  unfoldable pub set_uptimes : ℕ → GameList → List (Index × GameRecord) → List (Index × GameRecord)
  set_uptimes now g [] = []
  set_uptimes now g ((k, v) ∷ games) =
      (k, if is_listed g v then with_uptime now v else v) ∷ set_uptimes now g games

  unfoldable pub games : ℕ → GameList → GameList × List (Bytes × GameInfo)
  games now g = (record g { games = set_uptimes now g g.games }, add_games now g g.games [])
