-- ===== src/Network/Lan/Games/Expiry.antt =====
-- How long a game stays in the list.
use gowarcraft.Prelude.{
  ℕ, ◌+◌, ◌*◌, ◌≡◌, not, false, ltb, some, none, if◌then◌else◌, List, [], ◌∷◌, arith, refl, ◌∙◌, ap,
}
use gowarcraft.Protocol.Go.{Bytes}
use gowarcraft.W3gs.GameInfo.{GameInfo}
use gowarcraft.Dict.{filter, only_if, lookup-filter}
use gowarcraft.Network.Lan.Games.{
  Index, same_index, GameRecord, GameList, index, second, on_game_info, expire, known_or_new,
  is_expired, any_expired,
}
use gowarcraft.Network.Lan.Games.Keys.{
  at, IsList, at-store_self, same_index-IsKey, handle-IsList, informs,
}

-- expire removes the records whose time is over, and no other; where it fires no Update it changes
-- nothing.
pub at-expire :
    (now : ℕ) (idx : Index) (g : GameList)
    → IsList g
    → at idx (expire now g).0 ≡ only_if (λ v. not (is_expired now v)) (at idx g)
unfolding expire
at-expire now idx g v =
    lookup-filter same_index same_index-IsKey (λ v. not (is_expired now v)) idx g.games v

pub filter-none_expired :
    (now : ℕ) (games : List (Index × GameRecord))
    → any_expired now games ≡ false
    → filter (λ idx game. not (is_expired now game)) games ≡ games
filter-none_expired now [] h = refl
filter-none_expired now ((idx, game) ∷ games) h = ground (arith, h, filter-none_expired now games)

-- In a list in which no index stands twice: a game stays in the list, with the information of
-- its last packet, until BroadcastInterval and five seconds after the packet have passed,
-- whatever the list had before; after that, expire removes it.
pub expire-on_game_info :
    (now later : ℕ) (source : Bytes) (pkt : GameInfo) (g : GameList)
    → IsList g
    → (game : GameRecord) × (game.info ≡ pkt)
      × (at (index source pkt.host_counter) (expire later (on_game_info now source pkt g).list).0
          ≡ (if ltb (now + (g.broadcast_interval + 5 * second)) later then none else some game))
unfolding on_game_info
expire-on_game_info now later source pkt g v = (
  game,
  refl,
  at-expire later idx (on_game_info now source pkt g).list
        (handle-IsList (informs now source pkt) g v)
      ∙ ap (only_if (λ x. not (is_expired later x))) (at-store_self idx game g)
      ∙ ground arith,
)
  where
    idx : Index
    idx = index source pkt.host_counter

    game : GameRecord
    game = record (known_or_new now pkt (at idx g)) {
      info = pkt;
      expires = now + (g.broadcast_interval + 5 * second);
    }
