-- ===== src/Lobby/Desync/Examples.antt =====
-- Three players, of which the third sends another checksum.
use gowarcraft.Prelude.{
  ◌-◌, some, ℕ, ◌≡◌, ◌≤◌, ◌∷◌, [], List, true, false, refl, arith, if◌then◌else◌,
}
use gowarcraft.Protocol.BitSet.{test_bit, clear_bit, clear}
use gowarcraft.W3gs.Slots.{SlotData}
use gowarcraft.Lobby.Slots.{Lobby, find_slot, pid_to_sid, count_if}
use gowarcraft.Lobby.Changes.{delete}
use gowarcraft.Lobby.Acks.{AckQueue}
use gowarcraft.Lobby.Invariant.{IsPid, occurrences}
use gowarcraft.Lobby.Desync.{Game, PlayerAck, desync, tally, drop_losers, drain_acks, on_game_tick}
use gowarcraft.Lobby.Desync.Ticks.{on_game_tick-stops}
use gowarcraft.Lobby.Desync.Rounds.{total}
use gowarcraft.Lobby.Desync.Dropping.{Comparable, Compares}
use gowarcraft.Lobby.Desync.Draining.{drain_acks-Compares}
use gowarcraft.Lobby.Desync.Plurality.{votes, is_loser, desync-plurality}

abbrev player_slot : ℕ → SlotData
player_slot pid = record {
  player_id = pid;
  download_status = 100;
  slot_status = 2;
  computer = false;
  team = pid;
  color = pid;
  race = 96;
  computer_type = 0;
  handicap = 100;
}

abbrev lobby_of : List ℕ → Lobby
lobby_of players = record {
  slots = player_slot 1 ∷ player_slot 2 ∷ player_slot 3 ∷ [];
  slot_base = record { slots = []; random_seed = 7; slot_layout = 0; num_players = 3 };
  players = players;
  locked = true;
  obs_team = 24;
  color_set = 16777215;
}

abbrev queue_of : ℕ → AckQueue
queue_of pid = record { ackarr = λ i. 50; ackidx = 0; acklen = 1 }

-- The third player is straggling.
abbrev trio : Game
trio = record { lobby = lobby_of (1 ∷ 2 ∷ 3 ∷ []); queues = queue_of; ackmask = 4 }

abbrev pair : Game
pair = record { lobby = lobby_of (1 ∷ 2 ∷ []); queues = queue_of; ackmask = 0 }

abbrev three_acks : List PlayerAck
three_acks =
    record { player = 1; ack = 50 }
    ∷ record { player = 2; ack = 50 }
    ∷ record { player = 3; ack = 60 }
    ∷ []

trio-Comparable : Comparable trio
unfolding test_bit count_if
trio-Comparable = record {
  distinct = (refl, (refl, (refl, tt)));
  pids =
      ((omega arith, omega arith), ((omega arith, omega arith), ((omega arith, omega arith), tt)));
  alert = (λ e. omega arith, (λ e. omega arith, (λ e. omega arith, tt)));
  seated = (omega arith, (omega arith, (omega arith, tt)));
}

drain_acks-Compares_example : Compares (total trio.lobby.players trio) (drain_acks 4 3 trio)
unfolding total
drain_acks-Compares_example =
    drain_acks-Compares 4 3 trio trio-Comparable (omega arith, omega arith) (λ h. omega arith)
      (omega arith)

desync-plurality_example :
    (votes trio.lobby three_acks 60 ≤ votes trio.lobby three_acks 50)
    × (occurrences 3 pair.lobby.players
        ≡ (if is_loser 50 3 three_acks then 0 else occurrences 3 trio.lobby.players))
unfolding desync tally drop_losers clear clear_bit delete pid_to_sid find_slot
desync-plurality_example = desync-plurality three_acks trio pair 50 60 3 refl refl

-- The first player has sent 2000 checksums.
on_game_tick-stops_example :
    (g' : Game) × (on_game_tick 4 40 2000 1 2000 2000 trio ≡ some g')
    × (g'.queues ≡ trio.queues)
    × (g'.lobby.slots ≡ trio.lobby.slots)
    × ((q : ℕ)
        → IsPid q
        → occurrences q g'.lobby.players
          ≡ (if test_bit (q - 1) trio.ackmask then 0 else occurrences q trio.lobby.players))
    × (drain_acks 4 2 g' ≡ some g')
on_game_tick-stops_example =
    on_game_tick-stops 4 40 2000 1 2000 2000 2 trio (omega arith, omega arith)
      (omega arith, omega arith) refl refl
