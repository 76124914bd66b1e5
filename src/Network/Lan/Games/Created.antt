-- ===== src/Network/Lan/Games/Created.antt =====
-- The time at which a game was created.
use gowarcraft.Prelude.{ℕ, ◌+◌, ◌*◌, ◌≡◌, Option, some, none, ◌∙◌, ap}
use gowarcraft.Protocol.Go.{Bytes}
use gowarcraft.W3gs.GameInfo.{GameInfo}
use gowarcraft.W3gs.Listing.{RefreshGame}
use gowarcraft.Network.Lan.Games.{
  GameRecord, GameList, index, minute, second, placeholder, refresh_known, known_or_new,
  on_refresh_game, on_game_info,
}
use gowarcraft.Network.Lan.Games.Keys.{at, at-store_self}

abbrev pub created_at : Option GameRecord → Option ℕ
created_at none = none
created_at (some v) = some v.created

informed-created :
    (now : ℕ) (source : Bytes) (pkt : GameInfo) (g : GameList)
    → created_at (at (index source pkt.host_counter) (on_game_info now source pkt g).list)
      ≡ some (known_or_new now pkt (at (index source pkt.host_counter) g)).created
unfolding on_game_info
informed-created now source pkt g =
    let idx = index source pkt.host_counter in
    let game = known_or_new now pkt (at idx g) in
    ap created_at (
      at-store_self idx
        (record game { info = pkt; expires = now + (g.broadcast_interval + 5 * second) }) g)

-- A game that is first heard of by a RefreshGame has the zero time as its time of creation when
-- its GameInfo comes, whatever its uptime says.
pub refreshed-created :
    (now later : ℕ) (source : Bytes) (pkt : RefreshGame) (info : GameInfo) (g : GameList)
    → info.host_counter ≡ pkt.host_counter
    → at (index source pkt.host_counter) g ≡ none
    → created_at (
        at
          (index source info.host_counter)
          (on_game_info later source info (on_refresh_game now source pkt g).list).list)
      ≡ some 0
unfolding on_refresh_game refresh_known
refreshed-created now later source pkt info g e n =
    let idx = index source pkt.host_counter in
    informed-created later source info (on_refresh_game now source pkt g).list
    ∙ rw (e, n)
        (ap (λ o. some (known_or_new later info o).created)
          (at-store_self idx (placeholder 0 (now + 5 * minute)) g))
