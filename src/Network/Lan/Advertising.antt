-- ===== src/Network/Lan/Advertising.antt =====
-- network/lan/advertise_udp.go: the game that a host advertises. What a method broadcasts or sends
-- is a result.
use gowarcraft.Prelude.{ℕ, ◌-◌, ◌*◌, ◌==◌, Option, some, none, if◌then◌else◌}
use gowarcraft.W3gs.GameInfo.{GameInfo}
use gowarcraft.W3gs.Listing.{SearchGame, CreateGame, RefreshGame, DecreateGame}
use gowarcraft.Network.Lan.Games.{second}

pub record Advertiser : Type 0 where
  pub info : GameInfo
  pub created : ℕ

unfoldable pub new_advertiser : ℕ → GameInfo → Advertiser
new_advertiser now info = record { info = info; created = now - info.uptime_sec * second }

unfoldable pub create : Advertiser → CreateGame
create a = record {
  product = a.info.game_version.product;
  version = a.info.game_version.version;
  host_counter = a.info.host_counter;
}

abbrev pub refresh_packet : Advertiser → RefreshGame
refresh_packet a = record {
  host_counter = a.info.host_counter;
  slots_used = a.info.slots_used;
  slots_available = a.info.slots_available;
}

unfoldable pub refresh : ℕ → ℕ → Advertiser → Advertiser × RefreshGame
refresh slots_used slots_available a =
    let a' : Advertiser = record a {
      info = record a.info { slots_used = slots_used; slots_available = slots_available };
    } in
    (a', refresh_packet a')

unfoldable pub decreate : Advertiser → DecreateGame
decreate a = record { host_counter = a.info.host_counter }

-- The seconds of a duration are a floating-point number that is converted: a parameter.
unfoldable pub on_search_game :
    (uptime : ℕ → ℕ → ℕ) → ℕ → SearchGame → Advertiser → Advertiser × Option GameInfo
on_search_game uptime now pkt a =
    let a' : Advertiser = record a { info = record a.info { uptime_sec = uptime now a.created } } in
    if pkt.product == a.info.game_version.product then (a', some a'.info) else (a, none)
