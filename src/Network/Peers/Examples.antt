-- ===== src/Network/Peers/Examples.antt =====
-- Hosts with the numbers 2 and 5, and their first packets.
use gowarcraft.Prelude.{ℕ, ◌≡◌, true, some, none, List, [], ◌∷◌, arith, refl}
use gowarcraft.Protocol.BitSet.{insert, test_bit, set_bit}
use gowarcraft.W3gs.Peer.{PeerConnect}
use gowarcraft.Network.Peers.{Player, Host, connects, disconnect_player, register, accept}
use gowarcraft.Network.Peers.Crossing.{IsWaiting, conn_of, cross, cross-agrees}
use gowarcraft.Network.Peers.Sync.{is_connected}
use gowarcraft.Network.Peers.Steps.{
  Call, registers, accepts, ends, step, steps, new_host, peerset-is_connected,
}
use gowarcraft.Network.Peers.Stale.{is_stale, disconnect_player-is_stale}

abbrev player : ℕ → Player
player id = record { player_id = id; conn = none; peerset = 0 }

abbrev knows : ℕ → ℕ → Host
knows id other_id = record (new_host id 7 9) {
  peers = (other_id, 0) ∷ [];
  players = (0, player other_id) ∷ [];
}

abbrev hello : ℕ → PeerConnect
hello id = record { join_counter = 7; entry_key = 9; player_id = id; peer_set = 0 }

two_waits : IsWaiting (knows 5 2) 0 (player 2) (hello 2)
two_waits = record {
  known = refl;
  here = refl;
  free = refl;
  same_id = refl;
  positive = omega arith;
  small = omega arith;
  key = refl;
  counter = refl;
}

five_waits : IsWaiting (knows 2 5) 0 (player 5) (hello 5)
five_waits = record {
  known = refl;
  here = refl;
  free = refl;
  same_id = refl;
  positive = omega arith;
  small = omega arith;
  key = refl;
  counter = refl;
}

cross-agrees_example :
    (conn_of 0 (cross true 0 10 11 (hello 5) (knows 2 5)) ≡ some 10)
    × (conn_of 0 (cross true 0 11 10 (hello 2) (knows 5 2)) ≡ some 10)
cross-agrees_example =
    cross-agrees true true 0 0 10 11 (hello 2) (hello 5) (knows 2 5) (knows 5 2) (player 2)
      (player 5) five_waits two_waits refl refl (omega arith)

abbrev calls : List Call
calls = registers 5 ∷ registers 3 ∷ accepts true 20 (connects (hello 5)) ∷ ends 19 0 ∷ []

abbrev connected : Host
connected = record (new_host 2 7 9) {
  peers = (5, 0) ∷ (3, 1) ∷ [];
  players = (1, player 3) ∷ (0, record { player_id = 5; conn = some 20; peerset = 0 }) ∷ [];
  peerset = 16;
}

peerset-is_connected_example : test_bit 4 16 ≡ is_connected connected 5
unfolding steps step register accept disconnect_player insert set_bit
peerset-is_connected_example = peerset-is_connected 2 7 9 4 calls connected refl (omega arith)

-- The object 0 has been deregistered, and the object 1 registered and connected.
abbrev again : Host
again = record (new_host 2 7 9) {
  peers = (5, 1) ∷ [];
  players =
      (1, record { player_id = 5; conn = some 21; peerset = 0 })
      ∷ (0, record { player_id = 5; conn = some 20; peerset = 0 })
      ∷ [];
  peerset = 16;
}

disconnect_player-is_stale_example : is_stale 5 (disconnect_player 20 0 again) ≡ true
disconnect_player-is_stale_example =
    disconnect_player-is_stale 20 0 1 (record { player_id = 5; conn = some 20; peerset = 0 }) again
      (omega arith) (omega arith) refl refl refl refl refl
