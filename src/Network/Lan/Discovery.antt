-- ===== src/Network/Lan/Discovery.antt =====
-- A host that advertises a game, and a list that hears all of its packets.
use gowarcraft.Prelude.{
  ℕ, ◌+◌, ◌*◌, ◌==◌, ◌≡◌, ◌≢◌, ◌&&◌, not, true, false, Option, some, none, arith, refl, ap,
}
use gowarcraft.Protocol.Go.{Bytes}
use gowarcraft.W3gs.GameInfo.{GameVersion, GameInfo}
use gowarcraft.W3gs.Listing.{SearchGame}
use gowarcraft.Dict.{lookup-erase}
use gowarcraft.Network.Lan.Games.{
  Index, same_index, GameRecord, GameList, Handled, index, store, search_for, same_info,
  same_version, minute, placeholder, refresh_record, refresh_known, on_refresh_game, on_create_game,
  on_decreate_game, on_game_info, has_version,
}
use gowarcraft.Network.Lan.Games.Keys.{at, at-store_self, same_index-IsKey}
use gowarcraft.Network.Lan.Advertising.{
  Advertiser, create, refresh_packet, refresh, decreate, on_search_game,
}

-- The host answers a search, if one is made, and the list hears the answer.
abbrev pub search_at :
    (uptime : ℕ → ℕ → ℕ) → ℕ → Option SearchGame → Advertiser → Advertiser × Option GameInfo
search_at uptime now none a = (a, none)
search_at uptime now (some pkt) a = on_search_game uptime now pkt a

abbrev pub inform : ℕ → Bytes → Option GameInfo → GameList → Handled
inform now source none g = record { list = g; update = false; search = none }
inform now source (some pkt) g = on_game_info now source pkt g

-- A new game is created and announced, and searched for; its packets come in order.
abbrev pub discover :
    (uptime : ℕ → ℕ → ℕ) → ℕ → ℕ → ℕ → Bytes → Advertiser → GameList → Advertiser × Handled
discover uptime t1 t2 t3 source a g =
    let created = on_create_game t1 source (create a) g in
    let (a', reply) = search_at uptime t2 created.search a in
    (a', inform t3 source reply created.list)

abbrev pub listed_info : Option GameRecord → Option GameInfo
listed_info none = none
listed_info (some v) = some v.info

abbrev pub announce : ℕ → Bytes → ℕ → ℕ → Advertiser → GameList → Advertiser × Handled
announce now source used available a g =
    let (a', pkt) = refresh used available a in (a', on_refresh_game now source pkt g)

not_zero : (p q : GameInfo) → p.game_port ≡ 0 → q.game_port ≢ 0 → same_info p q ≡ false
unfolding same_info
not_zero p q e h = ground (arith, e, h)

same_version_refl : (v : GameVersion) → same_version v v ≡ true
same_version_refl v = ground arith

-- The advertiser after it has answered.
abbrev answered : (uptime : ℕ → ℕ → ℕ) → ℕ → Advertiser → Advertiser
answered uptime now a = record a { info = record a.info { uptime_sec = uptime now a.created } }

module _ (a : Advertiser) (g : GameList) (same_v : a.info.game_version ≡ g.game_version) where
  create-search :
      (now : ℕ) (source : Bytes)
      → (on_create_game now source (create a) g).search ≡ some (search_for g a.info.host_counter)
  unfolding on_create_game create
  create-search now source = ground (arith, same_v, same_version_refl g.game_version)

  answers :
      (uptime : ℕ → ℕ → ℕ) (now : ℕ)
      → on_search_game uptime now (search_for g a.info.host_counter) a
        ≡ (answered uptime now a, some (answered uptime now a).info)
  unfolding on_search_game
  answers uptime now = ground (arith, same_v)

-- The information of a game on a record that has none yet.
inform-placeholder :
    (now t1 t2 : ℕ) (source : Bytes) (pkt : GameInfo) (g : GameList)
    → pkt.game_version ≡ g.game_version
    → pkt.game_port ≢ 0
    → (h : Handled)
    → on_game_info now source pkt (store (index source pkt.host_counter) (placeholder t1 t2) g) ≡ h
    → (h.update ≡ true) × (listed_info (at (index source pkt.host_counter) h.list) ≡ some pkt)
unfolding on_game_info
inform-placeholder now t1 t2 source pkt g same_v port h e = rw (← e) (
    let idx = index source pkt.host_counter in
    let first = at-store_self idx (placeholder t1 t2) g in
    (
      ground (
        arith,
        first,
        port,
        same_v,
        same_version_refl g.game_version,
        not_zero (placeholder t1 t2).info pkt refl,
      ),
      ap listed_info (at-store_self idx _ (store idx (placeholder t1 t2) g)),
    ))

-- If the game of an advertiser has the version of a list and a port that is not 0, then after
-- the list has heard its CreateGame, the advertiser the search that the list sends back, and the
-- list the answer, at any times, the list fires Update and has at the game's index exactly the
-- information that the advertiser has.
pub discover-listed :
    (uptime : ℕ → ℕ → ℕ) (t1 t2 t3 : ℕ) (source : Bytes) (a : Advertiser) (g : GameList)
    → a.info.game_version ≡ g.game_version
    → a.info.game_port ≢ 0
    → ((discover uptime t1 t2 t3 source a g).1.update ≡ true)
      × (listed_info
            (at (index source a.info.host_counter) (discover uptime t1 t2 t3 source a g).1.list)
          ≡ some (discover uptime t1 t2 t3 source a g).0.info)
unfolding on_create_game create
discover-listed uptime t1 t2 t3 source a g same_v port =
    rw (create-search a g same_v t1 source, answers a g same_v uptime t2)
      (inform-placeholder t3 t1 (t1 + 5 * minute) source (answered uptime t2 a).info g same_v port _
        refl)

refreshed :
    (now used available : ℕ) (idx : Index) (a : Advertiser) (g : GameList) (o : Option GameRecord)
    → a.info.game_version ≡ g.game_version
    → listed_info o ≡ some a.info
    → (h : Handled) → refresh_known now idx (refresh used available a).1 g o ≡ h
    → (h.update ≡ not (a.info.slots_used == used && a.info.slots_available == available))
      × (listed_info (at idx h.list) ≡ some (refresh used available a).0.info)
unfolding refresh_known refresh
refreshed now used available idx a g none same_v l h e = absurd (cc)
refreshed now used available idx a g (some game) same_v l h e = rw (← e) (
    let info_eq : game.info ≡ a.info = cc in
    (
      ground (arith, info_eq, same_v, same_version_refl g.game_version),
      ground (
        arith,
        info_eq,
        at-store_self idx (refresh_record now (refresh_packet (refresh used available a).0) g game)
            g,
      ),
    ))

-- A game that has the version of the list and is listed with the information of its advertiser
-- follows it: after a Refresh the list has the information of the advertiser with the new slots,
-- and fires Update exactly when they have changed; after Decreate the list has nothing at the
-- index, and fires Update.
pub follow-listed :
    (now used available : ℕ) (source : Bytes) (a : Advertiser) (g : GameList)
    → a.info.game_version ≡ g.game_version
    → listed_info (at (index source a.info.host_counter) g) ≡ some a.info
    → ((announce now source used available a g).1.update
        ≡ not (a.info.slots_used == used && a.info.slots_available == available))
      × (listed_info
            (at (index source a.info.host_counter) (announce now source used available a g).1.list)
          ≡ some (announce now source used available a g).0.info)
      × (at (index source a.info.host_counter) (on_decreate_game source (decreate a) g).list ≡ none)
      × ((on_decreate_game source (decreate a) g).update ≡ true)
unfolding on_refresh_game on_decreate_game refresh decreate
follow-listed now used available source a g same_v l =
    let idx = index source a.info.host_counter in
    let (u, i) = refreshed now used available idx a g (at idx g) same_v l _ refl in
    (
      u,
      i,
      ground (
        arith,
        lookup-erase same_index same_index-IsKey idx idx g.games,
        same_index-IsKey.self idx,
      ),
      was_listed (at idx g) l,
    )
  where
    was_listed : (o : Option GameRecord) → listed_info o ≡ some a.info → has_version g o ≡ true
    was_listed none e = absurd (cc)
    was_listed (some game) e =
        let info_eq : game.info ≡ a.info = cc in
        rw (info_eq, same_v) (same_version_refl g.game_version)
