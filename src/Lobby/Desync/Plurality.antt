-- ===== src/Lobby/Desync/Plurality.antt =====
-- desync keeps the players with the checksum that has the most votes.
use gowarcraft.Prelude.{
  ℕ, ◌+◌, ◌==◌, ◌≡◌, ◌≤◌, ◌&&◌, ◌||◌, not, Bool, true, false, Option, some, none, ltb,
  if◌then◌else◌, List, [], ◌∷◌, arith, refl,
}
use gowarcraft.Lobby.Slots.{Lobby, pid_to_sid}
use gowarcraft.Lobby.Changes.{delete}
use gowarcraft.Lobby.Desync.{
  ◌>>=◌, Game, PlayerAck, vote_of, tally, add_votes, leader, drop_player, drop_losers, desync,
}
use gowarcraft.Lobby.Invariant.{occurrences}
use gowarcraft.Lobby.Invariant.Calls.{occurrences-delete}

abbrev or_zero : Option ℕ → ℕ
or_zero none = 0
or_zero (some n) = n

-- What the players have that sent the checksum `a`: 255 for one that plays, 1 for an observer.
pub votes : Lobby → List PlayerAck → ℕ → ℕ
votes l [] a = 0
votes l (p ∷ acks) a =
    (if p.ack == a then or_zero (vote_of l (pid_to_sid l p.player)) else 0) + votes l acks a

bind-eq-some :
    {A B : Type 0} (m : Option A) (f : A → Option B) (b : B)
    → m >>= f ≡ some b
    → (a : A) × (m ≡ some a) × (f a ≡ some b)
bind-eq-some none f b e = ground (arith, e)
bind-eq-some (some a) f b e = (a, refl, e)

leader-max :
    (m : ℕ → ℕ) (ack n max b : ℕ)
    → m b ≤ m max
    → m ack ≤ m max
    → add_votes m ack n b ≤ add_votes m ack n (leader (add_votes m ack n) ack max)
leader-max m ack n max b h h' = by_lead (ltb (add_votes m ack n max) (add_votes m ack n ack)) refl
  where
    by_lead :
        (c : Bool)
        → ltb (add_votes m ack n max) (add_votes m ack n ack) ≡ c
        → add_votes m ack n b ≤ add_votes m ack n (if c then ack else max)
    by_lead true e = ground (arith, e, h, h')
    by_lead false e = ground (arith, e, h, h')

tally-votes :
    (l : Lobby) (acks : List PlayerAck) (m : ℕ → ℕ) (max w b : ℕ)
    → ((a : ℕ) → m a ≤ m max)
    → tally l acks m max ≡ some w
    → m b + votes l acks b ≤ m w + votes l acks w
unfolding tally votes
tally-votes l [] m max w b h e = ground (arith, e, h b)
tally-votes l (p ∷ acks) m max w b h e =
    let counted = bind-eq-some (vote_of l (pid_to_sid l p.player)) _ w e in
    let rest =
      tally-votes l acks (add_votes m p.ack counted.0)
        (leader (add_votes m p.ack counted.0) p.ack max) w b
        (λ a. leader-max m p.ack counted.0 max a (h a) (h p.ack)) counted.2 in
    ground (arith, counted.1, rest)

-- A player of `acks` that did not send `w`.
abbrev pub is_loser : ℕ → ℕ → List PlayerAck → Bool
is_loser w pid [] = false
is_loser w pid (p ∷ acks) = (p.player == pid && not (p.ack == w)) || is_loser w pid acks

drop_player-players :
    (g g' : Game) (gone : ℕ)
    → drop_player g gone ≡ some g'
    → g'.lobby.players ≡ delete gone g.lobby.players
drop_player-players g g' gone e = ground (arith, e)

drop_losers-players :
    (w : ℕ) (acks : List PlayerAck) (g g' : Game) (pid : ℕ)
    → drop_losers w acks g ≡ some g'
    → occurrences pid g'.lobby.players
      ≡ (if is_loser w pid acks then 0 else occurrences pid g.lobby.players)
unfolding drop_losers
drop_losers-players w [] g g' pid e = ground (arith, e)
drop_losers-players w (p ∷ acks) g g' pid e =
    let kept = bind-eq-some (if p.ack == w then some g else drop_player g p.player) _ g' e in
    ground (
      arith,
      drop_losers-players w acks kept.0 g' pid kept.2,
      kept.1,
      drop_player-players g kept.0 p.player,
      occurrences-delete pid p.player g.lobby.players,
    )

-- desync keeps the checksum that has the most votes, where a player that plays has 255 and an
-- observer has one, and removes exactly the players that sent another.
pub desync-plurality :
    (acks : List PlayerAck) (g g' : Game) (w a pid : ℕ)
    → tally g.lobby acks (λ a. 0) 0 ≡ some w
    → desync acks g ≡ some g'
    → (votes g.lobby acks a ≤ votes g.lobby acks w)
      × (occurrences pid g'.lobby.players
          ≡ (if is_loser w pid acks then 0 else occurrences pid g.lobby.players))
unfolding desync
desync-plurality acks g g' w a pid e d = (
  omega (arith, tally-votes g.lobby acks (λ a. 0) 0 w a (λ b. omega arith) e),
  drop_losers-players w acks g g' pid (ground (arith, e, d)),
)
