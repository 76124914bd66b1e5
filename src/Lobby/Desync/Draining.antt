-- ===== src/Lobby/Desync/Draining.antt =====
-- The loop of drainAcks ends without a panic.
use gowarcraft.Prelude.{
  ℕ, zero, suc, ◌-◌, ◌==◌, ◌≡◌, ◌≤◌, ◌<◌, Bool, true, false, Option, some, List, [], ◌∷◌, All,
  length, arith, refl,
}
use gowarcraft.Protocol.BitSet.{test_bit, clear_bit, clear, test}
use gowarcraft.Protocol.BitSet.Laws.{test_bit-clear_bit, test_bit-zero}
use gowarcraft.Lobby.Desync.{
  ◌>>=◌, Game, PlayerAck, dequeue_all, desync, differs, compare_acks, drain, drain_if, drain_acks,
}
use gowarcraft.Lobby.Desync.Rounds.{
  waiting, IsReady, IsAlert, after_all, acks_of, total, dequeue_all-ready, after_all-IsAlert,
  total-after_all,
}
use gowarcraft.Lobby.Invariant.{IsPid, occurrences}
use gowarcraft.Lobby.Desync.Dropping.{
  IsSeated, Comparable, Compares, compares, IsVoter, bind-Compares, if-Compares, desync-Compares,
  total-eq,
}

-- Where no bit is set, each player has sent a checksum.
All-IsReady :
    (players : List ℕ) (g : Game)
    → g.ackmask ≡ 0
    → All IsPid players
    → All (IsAlert g) players
    → All (IsReady g) players
All-IsReady [] g e hp h = tt
All-IsReady (p ∷ players) g e (hp, hps) (h, hs) =
    ((hp, h (rw e (test_bit-zero (p - 1)))), All-IsReady players g e hps hs)

after_all-lobby : (players : List ℕ) (g : Game) → (after_all players g).lobby ≡ g.lobby
unfolding after_all
after_all-lobby [] g = refl
after_all-lobby (p ∷ players) g = after_all-lobby players _

acks_of-IsVoter :
    (players : List ℕ) (g k : Game)
    → All IsPid players
    → All (IsSeated k) players
    → All (IsVoter k) (acks_of players g)
unfolding acks_of
acks_of-IsVoter [] g k hp hs = tt
acks_of-IsVoter (p ∷ players) g k (hp, hps) (hs, hss) =
    ((hp, hs), acks_of-IsVoter players _ k hps hss)

after_all-Comparable :
    (g : Game) → Comparable g → g.ackmask ≡ 0 → Comparable (after_all g.lobby.players g)
after_all-Comparable g v e =
    let ready = All-IsReady g.lobby.players g e v.pids v.alert in
    record {
      distinct = rw (after_all-lobby g.lobby.players g) v.distinct;
      pids = rw (after_all-lobby g.lobby.players g) v.pids;
      alert =
          rw (after_all-lobby g.lobby.players g)
            (after_all-IsAlert g.lobby.players g v.distinct ready);
      seated = rw (after_all-lobby g.lobby.players g) v.seated;
    }

compare_acks-Compares :
    (n m : ℕ) (acks : List PlayerAck) (g : Game) (loop : Game → Option Game)
    → Comparable g
    → All (IsVoter g) acks
    → total g.lobby.players g ≤ n
    → n ≤ m
    → (0 < length acks
        → (g' : Game) → Comparable g'
        → total g'.lobby.players g' ≤ n
        → Compares m (loop g'))
    → Compares m (compare_acks loop (acks, g))
compare_acks-Compares n m [] g loop v h t le k = compares g v (omega (arith, t, le))
compare_acks-Compares n m (p ∷ acks) g loop v h t le k =
    bind-Compares n m _ loop
      (if-Compares n (differs p.ack acks) (desync (p ∷ acks) g) (some g)
        (λ _. desync-Compares (p ∷ acks) g n v h t) λ _. compares g v t)
      λ g' v' t'. k (omega arith) g' v' t'

weaken : (n m : ℕ) (r : Option Game) → n ≤ m → Compares n r → Compares m r
weaken n m _ le (compares g v t) = compares g v (omega (arith, t, le))

length-acks_of : (players : List ℕ) (g : Game) → length (acks_of players g) ≡ length players
unfolding acks_of
length-acks_of [] g = refl
length-acks_of (p ∷ players) g = omega (arith, length-acks_of players _)

-- A round takes a checksum from each player, if there is one.
round-Compares :
    (g : Game) (fuel : ℕ)
    → Comparable g
    → g.ackmask ≡ 0
    → ((g' : Game)
        → Comparable g'
        → total g'.lobby.players g' < total g.lobby.players g
        → Compares (total g'.lobby.players g') (drain fuel g'))
    → Compares
        (total g.lobby.players g)
        (dequeue_all g.lobby.players g >>= compare_acks (drain fuel))
round-Compares g fuel v e loop = rw (dequeue_all-ready g.lobby.players g v.distinct ready) (
    compare_acks-Compares (total g.lobby.players g - length g.lobby.players)
      (total g.lobby.players g) (acks_of g.lobby.players g) (after_all g.lobby.players g)
      (drain fuel) (after_all-Comparable g v e) voters fewer (omega arith) after_round)
  where
    ready : All (IsReady g) g.lobby.players
    ready = All-IsReady g.lobby.players g e v.pids v.alert

    voters : All (IsVoter (after_all g.lobby.players g)) (acks_of g.lobby.players g)
    voters =
        acks_of-IsVoter g.lobby.players g (after_all g.lobby.players g) v.pids
          (rw (after_all-lobby g.lobby.players g) v.seated)

    fewer :
        total (after_all g.lobby.players g).lobby.players (after_all g.lobby.players g)
        ≤ total g.lobby.players g - length g.lobby.players
    fewer = rw (after_all-lobby g.lobby.players g) (
        omega (
          arith,
          total-after_all g.lobby.players g v.distinct ready,
          total-eq g.lobby.players (record (after_all g.lobby.players g) { lobby = g.lobby })
              (after_all g.lobby.players g) (λ p. refl),
        ))

    after_round :
        0 < length (acks_of g.lobby.players g)
        → (g' : Game) → Comparable g'
        → total g'.lobby.players g' ≤ total g.lobby.players g - length g.lobby.players
        → Compares (total g.lobby.players g) (drain fuel g')
    after_round pos g' v' t' = weaken (total g'.lobby.players g') _ _ (omega (arith, t')) (
        loop g' v' (
          omega (
            arith,
            pos,
            t',
            length-acks_of g.lobby.players g,
            total-after_all g.lobby.players g v.distinct ready,
          )))

drain-Compares :
    (fuel : ℕ) (g : Game)
    → Comparable g
    → total g.lobby.players g < fuel
    → Compares (total g.lobby.players g) (drain fuel g)
unfolding drain
drain-Compares zero g v h = absurd (omega arith)
drain-Compares (suc fuel) g v h =
    if-Compares _ (g.ackmask == 0) _ (some g)
      (λ e.
        round-Compares g fuel v (ground (arith, e))
          λ g' v' lt. drain-Compares fuel g' v' (omega (arith, h, lt)))
      λ _. compares g v (omega arith)

IsAlert-clear :
    (pid : ℕ) (players : List ℕ) (g : Game)
    → IsPid pid
    → (0 < occurrences pid players → 0 < waiting g pid)
    → All IsPid players
    → All (IsAlert g) players
    → All (IsAlert (record g { ackmask = clear_bit (pid - 1) g.ackmask })) players
IsAlert-clear pid [] g hp sent hs h = tt
IsAlert-clear pid (p ∷ players) g hp sent (hq, hs) (h, hh) = (
  λ e. ground (arith, e, h, hp, hq, sent, test_bit-clear_bit (p - 1) (pid - 1) g.ackmask),
  IsAlert-clear pid players g hp (λ pos. sent (omega (arith, pos))) hs hh,
)

-- If each player has an id and a slot of its own, each that is not straggling has sent a
-- checksum, and so has the player for which drainAcks is called, if it has not left, then
-- drainAcks does not panic, its loop ends within one more round than there are checksums, and
-- afterwards each player that is not straggling has a checksum left.
pub drain_acks-Compares :
    (fuel pid : ℕ) (g : Game)
    → Comparable g
    → IsPid pid
    → (0 < occurrences pid g.lobby.players → 0 < waiting g pid)
    → total g.lobby.players g < fuel
    → Compares (total g.lobby.players g) (drain_acks fuel pid g)
unfolding drain_acks test clear
drain_acks-Compares fuel pid g v hp sent h = rw tested (by_bit (test_bit (pid - 1) g.ackmask))
  where
    tested : test 32 g.ackmask pid ≡ some (test_bit (pid - 1) g.ackmask)
    tested = ground (arith, hp)

    cleared : clear 32 g.ackmask pid ≡ some (clear_bit (pid - 1) g.ackmask)
    cleared = ground (arith, hp)

    straggler : Game
    straggler = record g { ackmask = clear_bit (pid - 1) g.ackmask }

    same_total : total g.lobby.players g ≡ total g.lobby.players straggler
    same_total = total-eq g.lobby.players g straggler λ p. refl

    comparable : Comparable straggler
    comparable = record {
      distinct = v.distinct;
      pids = v.pids;
      alert = IsAlert-clear pid g.lobby.players g hp sent v.pids v.alert;
      seated = v.seated;
    }

    by_bit : (c : Bool) → Compares (total g.lobby.players g) (drain_if c fuel pid g)
    by_bit false = compares g v (omega arith)
    by_bit true = rw cleared (
        weaken (total g.lobby.players straggler) _ _ (omega (arith, same_total))
          (drain-Compares fuel straggler comparable (omega (arith, h, same_total))))
