-- ===== src/Lobby/Desync.antt =====
-- network/lobby/game.go: the comparison of the players' checksums. None is a panic. The players of
-- the lobby stand in the order in which a range over the map gives them.
pub mod Rounds
pub mod Plurality
pub mod Dropping
pub mod Draining
pub mod Ticks
mod Examples
use gowarcraft.Prelude.{
  leb, ◌*◌, ◌/◌, ◌&&◌, ◌||◌, ℕ, zero, suc, ◌+◌, ◌==◌, not, Bool, true, false, Option, some, none,
  ltb, if◌then◌else◌, List, [], ◌∷◌,
}
use gowarcraft.Protocol.BitSet.{test, insert, clear}
use gowarcraft.Lobby.Slots.{Lobby, Result, ok, err, panic, get_slot, pid_to_sid}
use gowarcraft.Lobby.Changes.{delete, contains}
use gowarcraft.Lobby.Acks.{AckQueue, Dequeued, dequeue_ack}

infixl 5 ◌>>=◌
abbrev pub ◌>>=◌ {ℓ κ} : {A : Type ℓ} {B : Type κ} → Option A → (A → Option B) → Option B
none >>= f = none
some a >>= f = f a

-- A plack.
pub record PlayerAck : Type 0 where
  pub player : ℕ
  pub ack : ℕ

-- A bit of ackmask is set while the player of this id is straggling.
pub record Game : Type 0 where
  pub lobby : Lobby
  pub queues : ℕ → AckQueue
  pub ackmask : ℕ

abbrev pub with_queue : (ℕ → AckQueue) → ℕ → AckQueue → ℕ → AckQueue
with_queue queues pid q id = if pid == id then q else queues id

-- The first loop of a round: one checksum of each player.
abbrev pub straggle : Bool → ℕ → ℕ → Option ℕ
straggle more mask pid = if more then some mask else insert 32 mask pid

abbrev pub after_dequeue : Game → ℕ → Dequeued × AckQueue → Option (PlayerAck × Game)
after_dequeue g pid (d, q) =
    if d.ok
    then (straggle d.more g.ackmask pid >>= λ mask. some (
      record { player = pid; ack = d.checksum },
      record g { queues = with_queue g.queues pid q; ackmask = mask },
    ))
    else none

unfoldable pub dequeue_one : ℕ → Game → Option (PlayerAck × Game)
dequeue_one pid g = after_dequeue g pid (dequeue_ack (g.queues pid))

unfoldable pub dequeue_all : List ℕ → Game → Option (List PlayerAck × Game)
dequeue_all [] g = some ([], g)
dequeue_all (pid ∷ players) g =
    dequeue_one pid g >>= λ r. dequeue_all players r.1 >>= λ s. some (r.0 ∷ s.0, s.1)

-- desync. A player counts 0xFF times, and an observer once.
abbrev pub vote_of : Lobby → Result ℕ → Option ℕ
vote_of l (ok sid) = some (if (get_slot l.slots sid).team == l.obs_team then 1 else 255)
vote_of l (err e) = none
vote_of l panic = none

abbrev pub add_votes : (ℕ → ℕ) → ℕ → ℕ → ℕ → ℕ
add_votes m ack n a = if ack == a then m a + n else m a

abbrev pub leader : (ℕ → ℕ) → ℕ → ℕ → ℕ
leader m ack max = if ltb (m max) (m ack) then ack else max

unfoldable pub tally : Lobby → List PlayerAck → (ℕ → ℕ) → ℕ → Option ℕ
tally l [] m max = some max
tally l (p ∷ acks) m max = vote_of l (pid_to_sid l p.player) >>= λ n.
    tally l acks (add_votes m p.ack n) (leader (add_votes m p.ack n) p.ack max)

abbrev pub drop_player : Game → ℕ → Option Game
drop_player g pid = clear 32 g.ackmask pid >>= λ mask.
    some
      (record g { lobby = record g.lobby { players = delete pid g.lobby.players }; ackmask = mask })

unfoldable pub drop_losers : ℕ → List PlayerAck → Game → Option Game
drop_losers max [] g = some g
drop_losers max (p ∷ acks) g =
    (if p.ack == max then some g else drop_player g p.player) >>= λ g'. drop_losers max acks g'

unfoldable pub desync : List PlayerAck → Game → Option Game
desync acks g = tally g.lobby acks (λ a. 0) 0 >>= λ max. drop_losers max acks g

-- The comparison of the first checksum with the others.
unfoldable pub differs : ℕ → List PlayerAck → Bool
differs first [] = false
differs first (p ∷ acks) = if first == p.ack then differs first acks else true

-- The loop of drainAcks, which ends when there is no player, or when one is straggling.
abbrev pub compare_acks : (Game → Option Game) → List PlayerAck × Game → Option Game
compare_acks loop ([], g) = some g
compare_acks loop (p ∷ acks, g) =
    (if differs p.ack acks then desync (p ∷ acks) g else some g) >>= loop

unfoldable pub drain : ℕ → Game → Option Game
drain zero g = none
drain (suc fuel) g =
    if g.ackmask == 0 then (dequeue_all g.lobby.players g >>= compare_acks (drain fuel)) else some g

abbrev pub drain_if : Bool → ℕ → ℕ → Game → Option Game
drain_if false fuel pid g = some g
drain_if true fuel pid g =
    clear 32 g.ackmask pid >>= λ mask. drain fuel (record g { ackmask = mask })

unfoldable pub drain_acks : ℕ → ℕ → Game → Option Game
drain_acks fuel pid g = test 32 g.ackmask pid >>= λ straggling. drain_if straggling fuel pid g

-- onGameTick drops every straggler when a player is far ahead: 2000 checksums, or 30 seconds.
abbrev pub is_ahead : ℕ → ℕ → Bool
is_ahead turn_rate queue =
    leb 2000 queue || ltb 0 turn_rate && ltb 30000000000 (queue * 1000000000 / turn_rate)

abbrev pub drop_straggler : ℕ → Game → Option Game
drop_straggler pid g = test 32 g.ackmask pid >>= λ straggling. some (
    if straggling && contains g.lobby.players pid
    then record g { lobby = record g.lobby { players = delete pid g.lobby.players } }
    else g)

-- The loop over the ids from `pid` on.
unfoldable pub drop_stragglers : ℕ → ℕ → Game → Option Game
drop_stragglers zero pid g = some g
drop_stragglers (suc n) pid g = drop_straggler pid g >>= drop_stragglers n (pid + 1)

abbrev pub catch_up : Bool → Game → Option Game
catch_up false g = some g
catch_up true g = drop_stragglers 32 1 g >>= λ g'. some (record g' { ackmask = 0 })

-- With a tick that is not there yet the player is kicked.
unfoldable pub on_game_tick : ℕ → ℕ → ℕ → ℕ → ℕ → ℕ → Game → Option Game
on_game_tick fuel turn_rate now pid tick queue g =
    if ltb now tick then some g else (catch_up (is_ahead turn_rate queue) g >>= drain_acks fuel pid)
