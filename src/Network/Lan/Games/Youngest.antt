-- ===== src/Network/Lan/Games/Youngest.antt =====
-- The answer of Games.
use gowarcraft.Prelude.{
  ℕ, ◌≡◌, ◌&&◌, ◌||◌, not, Bool, true, false, leb, Option, some, none, List, [], ◌∷◌, All, arith,
  refl,
}
use gowarcraft.Protocol.Go.{Bytes}
use gowarcraft.W3gs.GameInfo.{GameInfo}
use gowarcraft.Network.Events.{same}
use gowarcraft.Network.Events.Ids.{same_refl, same-eq}
use gowarcraft.Dict.{lookup, assign, lookup-assign}
use gowarcraft.Network.Lan.Games.{
  Index, GameRecord, GameList, is_listed, same_info, with_uptime, add_listed, add_game, add_games,
  games,
}
use gowarcraft.Network.Lan.Games.Keys.{same-IsKey}

-- A game with at most some uptime.
abbrev pub at_most : ℕ → Option GameInfo → Bool
at_most u none = false
at_most u (some r) = leb r.uptime_sec u

-- One game more does not make the game of a host older.
add_listed-at_most :
    (u : ℕ) (h host : Bytes) (info : GameInfo) (res : List (Bytes × GameInfo))
    → at_most u (lookup same h res) ≡ true
    → at_most u (lookup same h (add_listed host info res)) ≡ true
add_listed-at_most u h host info res a =
    ground (arith, a, lookup-assign same same-IsKey h host info res, same-eq h host)

-- And the game of its host is as young as it is.
add_listed_self :
    (host : Bytes) (info : GameInfo) (res : List (Bytes × GameInfo))
    → at_most info.uptime_sec (lookup same host (add_listed host info res)) ≡ true
add_listed_self host info res =
    ground (arith, lookup-assign same same-IsKey host host info res, same_refl host)

abbrev pub all_of : (Bytes × GameInfo → Bool) → List (Bytes × GameInfo) → Bool
all_of p [] = true
all_of p (x ∷ res) = p x && all_of p res

assign-all_of :
    (p : Bytes × GameInfo → Bool) (h : Bytes) (info : GameInfo) (res : List (Bytes × GameInfo))
    → p (h, info) ≡ true
    → all_of p res ≡ true
    → all_of p (assign same h info res) ≡ true
assign-all_of p h info [] e a = ground (arith, e)
assign-all_of p h info (x ∷ res) e a = ground (arith, e, a, assign-all_of p h info res e)

same_info_refl : (p : GameInfo) → same_info p p ≡ true
unfolding same_info
same_info_refl p = ground (
  arith,
  same_refl p.game_name,
  same_refl p.game_settings.map_path,
  same_refl p.game_settings.host_name,
  same_refl p.game_settings.map_sha1,
)

module _ (host_port : Bytes → ℕ → Bytes) (uptime : ℕ → ℕ → ℕ) (now : ℕ) (g : GameList) where
  abbrev pub host_of : Index → GameRecord → Bytes
  host_of k v = host_port k.source v.info.game_port

  add_games-at_most :
      (u : ℕ) (h : Bytes) (rs : List (Index × GameRecord)) (res : List (Bytes × GameInfo))
      → at_most u (lookup same h res) ≡ true
      → at_most u (lookup same h (add_games host_port uptime now g rs res)) ≡ true
  unfolding add_games
  add_games-at_most u h [] res a = a
  add_games-at_most u h ((k, v) ∷ rs) res a =
      add_games-at_most u h rs (add_game host_port uptime now g k v res) (
        ground (
          arith,
          a,
          add_listed-at_most u h (host_of k v) (with_uptime host_port uptime now v).info res,
        ))

  -- The answer has a game of the record's host, which is as young as that of the record.
  abbrev pub IsCovered : List (Bytes × GameInfo) → Index × GameRecord → Type 0
  IsCovered res (k, v) =
      (not (is_listed g v) || at_most (uptime now v.created) (lookup same (host_of k v) res)) ≡ true

  add_games-IsCovered :
      (rs : List (Index × GameRecord)) (res : List (Bytes × GameInfo))
      → All (IsCovered (add_games host_port uptime now g rs res)) rs
  unfolding add_games
  add_games-IsCovered [] res = tt
  add_games-IsCovered ((k, v) ∷ rs) res =
      let info = (with_uptime host_port uptime now v).info in
      let res' = add_game host_port uptime now g k v res in
      (
        ground (
          arith,
          add_listed_self (host_of k v) info res,
          add_games-at_most (uptime now v.created) (host_of k v) rs res',
        ),
        add_games-IsCovered rs res',
      )

  -- A record that is listed, of the host and with the information and its uptime.
  abbrev pub is_of : Bytes × GameInfo → Index → GameRecord → Bool
  is_of (h, info) k v =
      is_listed g v
      && same h (host_of k v)
      && same_info info (with_uptime host_port uptime now v).info

  abbrev pub is_from : List (Index × GameRecord) → Bytes × GameInfo → Bool
  is_from [] e = false
  is_from ((k, v) ∷ rs) e = is_of e k v || is_from rs e

  add_games-is_from :
      (all rs : List (Index × GameRecord)) (res : List (Bytes × GameInfo))
      → ((e : Bytes × GameInfo) → is_from rs e ≡ true → is_from all e ≡ true)
      → all_of (is_from all) res ≡ true
      → all_of (is_from all) (add_games host_port uptime now g rs res) ≡ true
  unfolding add_games
  add_games-is_from all [] res sub a = a
  add_games-is_from all ((k, v) ∷ rs) res sub a =
      let info = (with_uptime host_port uptime now v).info in
      let h = host_of k v in
      add_games-is_from all rs (add_game host_port uptime now g k v res)
        (λ e m. sub e (ground (arith, m)))
        (ground (
          arith,
          a,
          sub (h, info),
          same_refl h,
          same_info_refl info,
          assign-all_of (is_from all) h info res,
        ))

  -- Games answers, for every record that has the version of the list and a port, a game of its
  -- host that is as young as it or younger; and every game that it answers is that of such a
  -- record of the host, with the uptime that is computed now.
  pub games-IsCovered :
      All (IsCovered (games host_port uptime now g).1) g.games
      × (all_of (is_from g.games) (games host_port uptime now g).1 ≡ true)
  unfolding games
  games-IsCovered =
      (add_games-IsCovered g.games [], add_games-is_from g.games g.games [] (λ e m. m) refl)
