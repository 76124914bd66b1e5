-- ===== src/Lobby/Desync/Ticks.antt =====
-- The comparison of checksums after onGameTick has dropped the stragglers.
use gowarcraft.Prelude.{
  ℕ, leb, List, [], ◌∷◌, zero, suc, ◌+◌, ◌≡◌, ◌≤◌, ◌&&◌, Bool, true, false, some, ltb,
  if◌then◌else◌, arith, refl, ◌∙◌, ◌-◌,
}
use gowarcraft.Protocol.BitSet.{test, test_bit}
use gowarcraft.Protocol.BitSet.Laws.{test_bit-zero}
use gowarcraft.Lobby.Changes.{delete, contains}
use gowarcraft.Lobby.Desync.{
  Game, drop_straggler, drop_stragglers, is_ahead, drain_acks, on_game_tick,
}
use gowarcraft.Lobby.Invariant.{IsPid, occurrences}
use gowarcraft.Lobby.Invariant.Calls.{occurrences-delete}

-- The players that are left when the stragglers from `pid` on, `n` ids, are dropped.
abbrev Dropped : ℕ → ℕ → Game → Game → Type 0
Dropped n pid g g' =
    (g'.queues ≡ g.queues)
    × (g'.lobby.slots ≡ g.lobby.slots)
    × ((q : ℕ)
        → IsPid q
        → occurrences q g'.lobby.players ≡ (
            if leb pid q && ltb q (pid + n) && test_bit (q - 1) g.ackmask
            then 0
            else occurrences q g.lobby.players))

contains-occurrences :
    (pid : ℕ) (players : List ℕ) → contains players pid ≡ false → occurrences pid players ≡ 0
contains-occurrences pid [] h = refl
contains-occurrences pid (p ∷ players) h = ground (arith, h, contains-occurrences pid players)

-- One round of the loop.
drop_one :
    (pid : ℕ) (g : Game)
    → 1 ≤ pid
    → pid ≤ 32
    → (g' : Game) × (drop_straggler pid g ≡ some g') × (g'.ackmask ≡ g.ackmask) × Dropped 1 pid g g'
unfolding test
drop_one pid g h h' = by_bit (test_bit (pid - 1) g.ackmask) (contains g.lobby.players pid) refl refl
  where
    by_bit :
        (b c : Bool)
        → test_bit (pid - 1) g.ackmask ≡ b
        → contains g.lobby.players pid ≡ c
        → (g' : Game) × (drop_straggler pid g ≡ some g')
          × (g'.ackmask ≡ g.ackmask)
          × Dropped 1 pid g g'
    by_bit true true eb ec = (
      record g { lobby = record g.lobby { players = delete pid g.lobby.players } },
      ground (arith, h, h', eb, ec),
      refl,
      (refl, refl, λ q hq. ground (arith, eb, hq, occurrences-delete q pid g.lobby.players)),
    )
    by_bit true false eb ec = (
      g,
      ground (arith, h, h', eb, ec),
      refl,
      (refl, refl, λ q hq. ground (arith, hq, contains-occurrences pid g.lobby.players ec)),
    )
    by_bit false c eb ec =
        (g, ground (arith, h, h', eb), refl, (refl, refl, λ q hq. ground (arith, eb, hq)))

-- The loop reaches its end, and no checksum is taken.
drop_all :
    (n pid : ℕ) (g : Game)
    → 1 ≤ pid
    → pid + n ≤ 33
    → (g' : Game) × (drop_stragglers n pid g ≡ some g') × Dropped n pid g g'
unfolding drop_stragglers
drop_all zero pid g h h' = (g, refl, (refl, refl, λ q hq. ground arith))
drop_all (suc n) pid g h h' =
    let one = drop_one pid g h (omega (arith, h')) in
    let rest = drop_all n (pid + 1) one.0 (omega arith) (omega (arith, h')) in
    (
      rest.0,
      rw one.1 rest.1,
      (
        rest.2.0 ∙ one.3.0,
        rest.2.1 ∙ one.3.1,
        λ q hq. ground (arith, rest.2.2 q hq, one.3.2 q hq, one.2, hq),
      ),
    )

-- A player whose bit is not set.
drain_acks-clear :
    (fuel pid : ℕ) (g : Game) → IsPid pid → g.ackmask ≡ 0 → drain_acks fuel pid g ≡ some g
unfolding drain_acks test
drain_acks-clear fuel pid g h e = rw e (ground (arith, h, test_bit-zero (pid - 1)))

-- When onGameTick finds a player far ahead it drops the stragglers without a panic: of the ids
-- from 1 to 32, exactly those whose bit of ackmask was set have no player any more, and the
-- others have theirs. The slots and the queues of checksums stay, and afterwards no bit of
-- ackmask is set, so a later drainAcks, of whichever player, changes nothing: checksums are not
-- compared any more.
pub on_game_tick-stops :
    (fuel turn_rate now pid tick queue later : ℕ) (g : Game)
    → IsPid pid
    → IsPid later
    → ltb now tick ≡ false
    → is_ahead turn_rate queue ≡ true
    → (g' : Game) × (on_game_tick fuel turn_rate now pid tick queue g ≡ some g')
      × (g'.queues ≡ g.queues)
      × (g'.lobby.slots ≡ g.lobby.slots)
      × ((q : ℕ)
          → IsPid q
          → occurrences q g'.lobby.players
            ≡ (if test_bit (q - 1) g.ackmask then 0 else occurrences q g.lobby.players))
      × (drain_acks fuel later g' ≡ some g')
unfolding on_game_tick
on_game_tick-stops fuel turn_rate now pid tick queue later g h h' e a =
    let dropped = drop_all 32 1 g (omega arith) (omega arith) in
    (
      record dropped.0 { ackmask = 0 },
      rw (e, a, dropped.1) (drain_acks-clear fuel pid (record dropped.0 { ackmask = 0 }) h refl),
      dropped.2.0,
      dropped.2.1,
      λ q hq. ground (arith, hq, dropped.2.2 q hq),
      drain_acks-clear fuel later (record dropped.0 { ackmask = 0 }) h' refl,
    )
