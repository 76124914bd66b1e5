-- ===== src/Lobby/Desync/Dropping.antt =====
-- desync drops players, and those that stay can be compared.
use gowarcraft.Prelude.{
  ℕ, ◌-◌, ◌==◌, ◌≡◌, ◌≤◌, ◌<◌, Bool, true, false, Option, some, if◌then◌else◌, List, [], ◌∷◌, All,
  arith, refl, Option-cases, inl, inr,
}
use gowarcraft.Protocol.BitSet.{clear_bit, clear}
use gowarcraft.Protocol.BitSet.Laws.{test_bit-clear_bit}
use gowarcraft.Lobby.Slots.{pid_to_sid, get_slot, find_slot, count_if, has_pid}
use gowarcraft.Lobby.Slots.Laws.{find_slot-ne-none}
use gowarcraft.Lobby.Changes.{delete}
use gowarcraft.Lobby.Desync.{
  ◌>>=◌, Game, PlayerAck, vote_of, tally, add_votes, leader, drop_player, drop_losers, desync,
}
use gowarcraft.Lobby.Desync.Rounds.{waiting, Distinct, IsAlert, total}
use gowarcraft.Lobby.Invariant.{IsPid, occurrences}

abbrev pub IsSeated : Game → ℕ → Type 0
IsSeated g pid = 0 < count_if (has_pid pid) g.lobby.slots

-- Each player has an id and a slot, and one that is not straggling has sent a checksum.
pub record Comparable (g : Game) : Type 0 where
  pub distinct : Distinct g.lobby.players
  pub pids : All IsPid g.lobby.players
  pub alert : All (IsAlert g) g.lobby.players
  pub seated : All (IsSeated g) g.lobby.players

-- A call that returns a game where the comparison can go on, with no more checksums than before.
pub data Compares (n : ℕ) : Option Game → Type 0 where
  compares : (g : Game) → Comparable g → total g.lobby.players g ≤ n → Compares n (some g)

abbrev pub IsVoter : Game → PlayerAck → Type 0
IsVoter g a = IsPid a.player × (0 < count_if (has_pid a.player) g.lobby.slots)

vote_of-seated :
    (g : Game) (pid : ℕ)
    → IsSeated g pid
    → (n : ℕ) × (vote_of g.lobby (pid_to_sid g.lobby pid) ≡ some n)
unfolding pid_to_sid
vote_of-seated g pid h = elim (Option-cases (find_slot (has_pid pid) g.lobby.slots)) [
  | inl lost ↦ absurd (find_slot-ne-none (has_pid pid) g.lobby.slots h lost)
  | inr (sid, found) ↦
      (if (get_slot g.lobby.slots sid).team == g.lobby.obs_team then 1 else 255, rw found refl)
]

tally-voters :
    (acks : List PlayerAck) (g : Game) (m : ℕ → ℕ) (max : ℕ)
    → All (IsVoter g) acks
    → (a : ℕ) × (tally g.lobby acks m max ≡ some a)
unfolding tally
tally-voters [] g m max h = (max, refl)
tally-voters (p ∷ acks) g m max (h, hs) =
    let v = vote_of-seated g p.player h.1 in
    let rest =
      tally-voters acks g (add_votes m p.ack v.0) (leader (add_votes m p.ack v.0) p.ack max) hs in
    (rest.0, rw v.1 rest.1)

-- A player that is dropped.
if-pair : (P : List ℕ → Type 0) (c : Bool) (x y : List ℕ) → P x → P y → P (if c then x else y)
if-pair P true x y hx hy = hx
if-pair P false x y hx hy = hy

module _ (gone : ℕ) where
  occurrences-delete-le :
      (pid : ℕ) (players : List ℕ) → occurrences pid (delete gone players) ≤ occurrences pid players
  unfolding delete
  occurrences-delete-le pid [] = omega arith
  occurrences-delete-le pid (p ∷ players) = ground (arith, occurrences-delete-le pid players)

  Distinct-delete : (players : List ℕ) → Distinct players → Distinct (delete gone players)
  unfolding delete
  Distinct-delete [] d = tt
  Distinct-delete (p ∷ players) (d, ds) =
      if-pair Distinct (p == gone) _ _ (Distinct-delete players ds)
        (omega (arith, d, occurrences-delete-le p players), Distinct-delete players ds)

  All-delete : (P : ℕ → Type 0) (players : List ℕ) → All P players → All P (delete gone players)
  unfolding delete
  All-delete P [] h = tt
  All-delete P (p ∷ players) (h, hs) =
      if-pair (All P) (p == gone) _ _ (All-delete P players hs) (h, All-delete P players hs)

  total-delete : (players : List ℕ) (g : Game) → total (delete gone players) g ≤ total players g
  unfolding delete total
  total-delete [] g = omega arith
  total-delete (p ∷ players) g = ground (arith, total-delete players g)

-- The total is that of the queues.
pub total-eq :
    (players : List ℕ) (g g' : Game)
    → ((pid : ℕ) → waiting g pid ≡ waiting g' pid)
    → total players g ≡ total players g'
unfolding total
total-eq [] g g' h = refl
total-eq (p ∷ players) g g' h = omega (arith, h p, total-eq players g g' h)

if-All :
    (P : ℕ → Type 0) (c : Bool) (p : ℕ) (players : List ℕ)
    → All P players
    → (c ≡ false → P p)
    → All P (if c then players else p ∷ players)
if-All P true p players h hp = h
if-All P false p players h hp = (hp refl, h)

-- The bit of the dropped player is cleared, and those of the others stay.
IsAlert-delete :
    (gone mask : ℕ) (players : List ℕ) (g : Game)
    → IsPid gone
    → mask ≡ clear_bit (gone - 1) g.ackmask
    → All IsPid players
    → All (IsAlert g) players
    → All (IsAlert (record g { ackmask = mask })) (delete gone players)
unfolding delete
IsAlert-delete gone mask [] g hg e hp h = tt
IsAlert-delete gone mask (p ∷ players) g hg e (hp, hps) (h, hs) =
    if-All (IsAlert (record g { ackmask = mask })) (p == gone) p _
      (IsAlert-delete gone mask players g hg e hps hs)
      λ ec b. ground (arith, h, b, e, ec, hp, hg, test_bit-clear_bit (p - 1) (gone - 1) g.ackmask)

drop_player-Compares :
    (g : Game) (pid n : ℕ)
    → Comparable g
    → IsPid pid
    → total g.lobby.players g ≤ n
    → Compares n (drop_player g pid)
unfolding clear
drop_player-Compares g pid n v hp h = rw cleared (
    compares _
      (record {
        distinct = Distinct-delete pid g.lobby.players v.distinct;
        pids = All-delete pid IsPid g.lobby.players v.pids;
        alert = IsAlert-delete pid _ g.lobby.players g hp refl v.pids v.alert;
        seated = All-delete pid (IsSeated g) g.lobby.players v.seated;
      })
      (omega (
        arith,
        h,
        total-delete pid g.lobby.players g,
        total-eq (delete pid g.lobby.players)
            (record g {
              lobby = record g.lobby { players = delete pid g.lobby.players };
              ackmask = clear_bit (pid - 1) g.ackmask;
            })
            g (λ p. refl),
      )))
  where
    cleared : clear 32 g.ackmask pid ≡ some (clear_bit (pid - 1) g.ackmask)
    cleared = ground (arith, hp)

pub bind-Compares :
    (n m : ℕ) (r : Option Game) (f : Game → Option Game)
    → Compares n r
    → ((g : Game) → Comparable g → total g.lobby.players g ≤ n → Compares m (f g))
    → Compares m (r >>= f)
bind-Compares n m _ f (compares g v t) h = h g v t

pub if-Compares :
    (n : ℕ) (c : Bool) (x y : Option Game)
    → (c ≡ true → Compares n x)
    → (c ≡ false → Compares n y)
    → Compares n (if c then x else y)
if-Compares n true x y hx hy = hx refl
if-Compares n false x y hx hy = hy refl

drop_losers-Compares :
    (max : ℕ) (acks : List PlayerAck) (g : Game) (n : ℕ)
    → Comparable g
    → All (λ a. IsPid a.player) acks
    → total g.lobby.players g ≤ n
    → Compares n (drop_losers max acks g)
unfolding drop_losers
drop_losers-Compares max [] g n v h t = compares g v t
drop_losers-Compares max (p ∷ acks) g n v (h, hs) t =
    bind-Compares n n _ _
      (if-Compares n (p.ack == max) (some g) (drop_player g p.player) (λ _. compares g v t)
        λ _. drop_player-Compares g p.player n v h t)
      λ g' v' t'. drop_losers-Compares max acks g' n v' hs t'

voters-pids :
    (acks : List PlayerAck) (g : Game) → All (IsVoter g) acks → All (λ a. IsPid a.player) acks
voters-pids [] g h = tt
voters-pids (p ∷ acks) g (h, hs) = (h.0, voters-pids acks g hs)

pub desync-Compares :
    (acks : List PlayerAck) (g : Game) (n : ℕ)
    → Comparable g
    → All (IsVoter g) acks
    → total g.lobby.players g ≤ n
    → Compares n (desync acks g)
unfolding desync
desync-Compares acks g n v h t =
    let max = tally-voters acks g (λ a. 0) 0 h in
    rw max.1 (drop_losers-Compares max.0 acks g n v (voters-pids acks g h) t)
