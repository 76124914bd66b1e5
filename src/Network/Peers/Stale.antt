-- ===== src/Network/Peers/Stale.antt =====
-- A player that is deregistered, and registered again before its old connection has ended.
use gowarcraft.Prelude.{ℕ, ◌-◌, ◌==◌, ◌≡◌, ◌≤◌, not, ◌&&◌, Bool, true, false, some, none, arith}
use gowarcraft.Protocol.BitSet.{clear, test_bit}
use gowarcraft.Protocol.BitSet.Laws.{test_bit-clear_bit}
use gowarcraft.Dict.{lookup, lookup-assign}
use gowarcraft.Network.Peers.{Player, Host, Reply, ok, err, panic, disconnect_player}
use gowarcraft.Network.Peers.Keys.{==-IsKey}
use gowarcraft.Network.Peers.Sync.{is_connected}

-- The set of peers does not have a number, of which a player is connected.
abbrev pub is_stale : ℕ → Reply → Bool
is_stale id (ok h) = not (test_bit (id - 1) h.peerset) && is_connected h id
is_stale id (err e) = false
is_stale id panic = false

-- When the connection of a player ends that is no longer registered, while another one with its
-- number, from 1 to 32, is registered and connected, the bit of the number is cleared: that
-- player is connected, but not in the set of peers.
pub disconnect_player-is_stale :
    (conn ref new : ℕ) (old : Player) (h : Host)
    → 1 ≤ old.player_id
    → old.player_id ≤ 32
    → lookup ◌==◌ ref h.players ≡ some old
    → old.conn ≡ some conn
    → lookup ◌==◌ old.player_id h.peers ≡ some new
    → (new == ref) ≡ false
    → is_connected h old.player_id ≡ true
    → is_stale old.player_id (disconnect_player conn ref h) ≡ true
unfolding disconnect_player clear
disconnect_player-is_stale conn ref new old h pos small here has_c known differs c = ground (
  arith,
  pos,
  small,
  here,
  has_c,
  known,
  differs,
  c,
  test_bit-clear_bit (old.player_id - 1) (old.player_id - 1) h.peerset,
  lookup-assign ◌==◌ ==-IsKey new ref (record old { conn = none; peerset = 0 }) h.players,
)
