-- ===== src/Network/Lan/Games/Silence.antt =====
-- When Update is fired.
use gowarcraft.Prelude.{ℕ, ◌+◌, ◌≡◌, Bool, true, false, Option, some, none, arith, refl, ap}
use gowarcraft.Protocol.Go.{Bytes}
use gowarcraft.W3gs.GameInfo.{GameInfo}
use gowarcraft.W3gs.Listing.{CreateGame, RefreshGame}
use gowarcraft.Network.Events.Ids.{same-eq}
use gowarcraft.Dict.{only_if, lookup-erase}
use gowarcraft.Network.Lan.Games.{
  Index, same_index, GameRecord, GameList, index, is_listed, same_version, same_info, placeholder,
  refresh_record, refresh_known, on_refresh_game, on_create_game, on_decreate_game, on_game_info,
  expire, known_or_new,
}
use gowarcraft.Network.Lan.Games.Keys.{
  at, at-store, at-store_self, same_index-IsKey, Notice, refreshes, creates, decreates, informs,
  expires, handle,
}
use gowarcraft.Network.Lan.Games.Expiry.{filter-none_expired}

-- The game that is listed at an index, without its uptime.
abbrev pub timeless : Option GameRecord → Option GameInfo
timeless none = none
timeless (some v) = some (record v.info { uptime_sec = 0 })

abbrev pub view : GameList → Index → Option GameInfo
view g idx = timeless (only_if (is_listed g) (at idx g))

same_info-eq : (p q : GameInfo) → same_info p q ≡ true → p ≡ q
unfolding same_info
same_info-eq p q h = ground (
  arith,
  h,
  same-eq p.game_name q.game_name,
  same-eq p.game_settings.map_path q.game_settings.map_path,
  same-eq p.game_settings.host_name q.game_settings.host_name,
  same-eq p.game_settings.map_sha1 q.game_settings.map_sha1,
)

-- Not about a CreateGame, or a game that changes to another version than that of the list.
abbrev pub keeps_version : Notice → GameList → Bool
keeps_version (creates now source pkt) g = false
keeps_version (informs now source pkt) g = same_version pkt.game_version g.game_version
keeps_version n g = true

refresh_known-view :
    (now : ℕ) (idx i : Index) (pkt : RefreshGame) (g : GameList) (o : Option GameRecord)
    → at idx g ≡ o
    → (refresh_known now idx pkt g o).update ≡ false
    → view (refresh_known now idx pkt g o).list i ≡ view g i
unfolding refresh_known
refresh_known-view now idx i pkt g none e u =
    ground
      (arith, e, at-store i idx (placeholder 0 (now + 300000000000)) g, same_index-IsKey.same i idx)
refresh_known-view now idx i pkt g (some game) e u =
    ground
      (arith, e, u, at-store i idx (refresh_record now pkt g game) g, same_index-IsKey.same i idx)

-- If a handler of the list or its timer fires no Update, the game that is listed at each index
-- is the same as before but for its uptime; except on a CreateGame, and on the information that
-- a game has another version than that of the list.
pub handle-view :
    (n : Notice) (g : GameList) (i : Index)
    → keeps_version n g ≡ true
    → (handle n g).update ≡ false
    → view (handle n g).list i ≡ view g i
unfolding on_refresh_game on_decreate_game on_game_info expire
handle-view (refreshes now source pkt) g i k u =
    refresh_known-view now (index source pkt.host_counter) i pkt g _ refl u
handle-view (creates now source pkt) g i k u = absurd (cc)
handle-view (decreates source pkt) g i k u =
    let idx = index source pkt.host_counter in
    ground (
      arith,
      u,
      lookup-erase same_index same_index-IsKey i idx g.games,
      same_index-IsKey.same i idx,
    )
handle-view (informs now source pkt) g i k u =
    let idx = index source pkt.host_counter in
    let game = known_or_new now pkt (at idx g) in
    ground (
      arith,
      k,
      u,
      at-store i idx
          (record game { info = pkt; expires = now + (g.broadcast_interval + 5000000000) }) g,
      same_index-IsKey.same i idx,
      same_info-eq game.info pkt,
    )
handle-view (expires now) g i k u =
    ap (λ rs. view (record g { games = rs }) i) (filter-none_expired now g.games u)

-- A CreateGame for an index at which a game is listed takes it off the list, and no Update is fired.
pub on_create_game-view :
    (now : ℕ) (source : Bytes) (pkt : CreateGame) (g : GameList)
    → (view (on_create_game now source pkt g).list (index source pkt.host_counter) ≡ none)
      × ((on_create_game now source pkt g).update ≡ false)
unfolding on_create_game
on_create_game-view now source pkt g =
    let idx = index source pkt.host_counter in
    (ground (arith, at-store_self idx (placeholder now (now + 300000000000)) g), refl)
