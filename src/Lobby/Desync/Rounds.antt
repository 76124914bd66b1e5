-- ===== src/Lobby/Desync/Rounds.antt =====
-- One round of drainAcks: a checksum of each player.
use gowarcraft.Prelude.{
  ℕ, ◌+◌, ◌-◌, ◌≡◌, ◌<◌, false, some, ltb, if◌then◌else◌, List, [], ◌∷◌, All, length, arith, refl,
}
use gowarcraft.Protocol.BitSet.{test_bit, set_bit, insert}
use gowarcraft.Protocol.BitSet.Laws.{test_bit-set_bit}
use gowarcraft.Lobby.Acks.{dequeue_ack}
use gowarcraft.Lobby.Desync.{Game, PlayerAck, with_queue, dequeue_one, dequeue_all}
use gowarcraft.Lobby.Invariant.{IsPid, occurrences}

abbrev pub waiting : Game → ℕ → ℕ
waiting g pid = (g.queues pid).acklen

abbrev pub Distinct : List ℕ → Type 0
Distinct [] = Unit
Distinct (p ∷ players) = (occurrences p players ≡ 0) × Distinct players

-- A player that has sent a checksum.
abbrev pub IsReady : Game → ℕ → Type 0
IsReady g pid = IsPid pid × (0 < waiting g pid)

abbrev pub first_ack : ℕ → Game → PlayerAck
first_ack pid g = record { player = pid; ack = (dequeue_ack (g.queues pid)).0.checksum }

abbrev pub after_one : ℕ → Game → Game
after_one pid g = record g {
  queues = with_queue g.queues pid (dequeue_ack (g.queues pid)).1;
  ackmask = if ltb 0 (waiting g pid - 1) then g.ackmask else set_bit (pid - 1) g.ackmask;
}

dequeue_one-ready :
    (pid : ℕ) (g : Game)
    → IsReady g pid
    → dequeue_one pid g ≡ some (first_ack pid g, after_one pid g)
unfolding dequeue_one dequeue_ack insert
dequeue_one-ready pid g h = ground (arith, h)

unfoldable pub acks_of : List ℕ → Game → List PlayerAck
acks_of [] g = []
acks_of (pid ∷ players) g = first_ack pid g ∷ acks_of players (after_one pid g)

unfoldable pub after_all : List ℕ → Game → Game
after_all [] g = g
after_all (pid ∷ players) g = after_all players (after_one pid g)

IsReady-after_one :
    (pid : ℕ) (g : Game) (players : List ℕ)
    → occurrences pid players ≡ 0
    → All (IsReady g) players
    → All (IsReady (after_one pid g)) players
IsReady-after_one pid g [] e h = tt
IsReady-after_one pid g (p ∷ players) e (h, hs) =
    ((h.0, ground (arith, h, e)), IsReady-after_one pid g players (ground (arith, e)) hs)

pub dequeue_all-ready :
    (players : List ℕ) (g : Game)
    → Distinct players
    → All (IsReady g) players
    → dequeue_all players g ≡ some (acks_of players g, after_all players g)
unfolding dequeue_all acks_of after_all
dequeue_all-ready [] g d h = refl
dequeue_all-ready (pid ∷ players) g (d, ds) (h, hs) =
    rw
      (
        dequeue_one-ready pid g h,
        dequeue_all-ready players (after_one pid g) ds (IsReady-after_one pid g players d hs),
      )
      refl

-- A player that is not asked keeps its queue and its bit.
after_all-absent :
    (players : List ℕ) (g : Game) (pid : ℕ)
    → IsPid pid
    → All IsPid players
    → occurrences pid players ≡ 0
    → (waiting (after_all players g) pid ≡ waiting g pid)
      × (test_bit (pid - 1) (after_all players g).ackmask ≡ test_bit (pid - 1) g.ackmask)
unfolding after_all
after_all-absent [] g pid hp h e = (refl, refl)
after_all-absent (p ∷ players) g pid hp (h, hs) e =
    let rest = after_all-absent players (after_one p g) pid hp hs (ground (arith, e)) in
    (
      ground (arith, rest.0, e),
      ground (arith, rest.1, e, h, hp, test_bit-set_bit (pid - 1) (p - 1) g.ackmask),
    )

-- A player that is not straggling has sent a checksum.
abbrev pub IsAlert : Game → ℕ → Type 0
IsAlert g pid = test_bit (pid - 1) g.ackmask ≡ false → 0 < waiting g pid

pub All-IsPid : (players : List ℕ) (g : Game) → All (IsReady g) players → All IsPid players
All-IsPid [] g h = tt
All-IsPid (pid ∷ players) g (h, hs) = (h.0, All-IsPid players g hs)

pub after_all-IsAlert :
    (players : List ℕ) (g : Game)
    → Distinct players
    → All (IsReady g) players
    → All (IsAlert (after_all players g)) players
unfolding after_all dequeue_ack
after_all-IsAlert [] g d h = tt
after_all-IsAlert (pid ∷ players) g (d, ds) (h, hs) =
    let absent = after_all-absent players (after_one pid g) pid h.0 (All-IsPid players g hs) d in
    (
      λ e. ground (arith, absent.0, absent.1, e, h, test_bit-set_bit (pid - 1) (pid - 1) g.ackmask),
      after_all-IsAlert players (after_one pid g) ds (IsReady-after_one pid g players d hs),
    )

unfoldable pub total : List ℕ → Game → ℕ
total [] g = 0
total (pid ∷ players) g = waiting g pid + total players g

total-after_one :
    (players : List ℕ) (g : Game) (pid : ℕ)
    → occurrences pid players ≡ 0
    → total players (after_one pid g) ≡ total players g
unfolding total
total-after_one [] g pid e = refl
total-after_one (p ∷ players) g pid e =
    ground (arith, e, total-after_one players g pid (ground (arith, e)))

pub total-after_all :
    (players : List ℕ) (g : Game)
    → Distinct players
    → All (IsReady g) players
    → total players (after_all players g) + length players ≡ total players g
unfolding total after_all dequeue_ack
total-after_all [] g d h = refl
total-after_all (pid ∷ players) g (d, ds) (h, hs) = ground (
  arith,
  h,
  after_all-absent players (after_one pid g) pid h.0 (All-IsPid players g hs) d,
  total-after_one players g pid d,
  total-after_all players (after_one pid g) ds (IsReady-after_one pid g players d hs),
)
