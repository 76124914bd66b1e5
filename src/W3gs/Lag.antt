-- ===== src/W3gs/Lag.antt =====
-- protocol/w3gs/packets.go: StartLag, LagPlayer, StopLag and DropLaggers.
pub mod RoundTrip
pub mod Safety
use gowarcraft.Prelude.{ℕ, zero, suc, ◌+◌, ◌*◌, ◌%◌, ◌^◌, length, List, [], ◌∷◌}
use gowarcraft.Protocol.Go.{Go, ◌>>=◌, ◌>>◌, return, reject_if, invalid_packet_size}
use gowarcraft.Protocol.Buffer.{
  byte, read_uint8, read_uint32, write_uint8, write_uint16, write_uint32,
}
use gowarcraft.W3gs.Header.{protocol_sig, read_packet_size, size_ne, size_lt}
use gowarcraft.W3gs.Pid

pub record LagPlayer : Type 0 where
  pub player_id : ℕ
  pub lag_duration_ms : ℕ

unfoldable pub serialize_lag_player : LagPlayer → Go (Unit {0})
serialize_lag_player lp = do write_uint8 lp.player_id; write_uint32 lp.lag_duration_ms

unfoldable pub deserialize_lag_player : Go LagPlayer
deserialize_lag_player = do
  player_id ← read_uint8
  lag_duration_ms ← read_uint32
  return (record { player_id = player_id; lag_duration_ms = lag_duration_ms })

pub record StartLag : Type 0 where
  pub players : List LagPlayer

-- The two loops over the players.
unfoldable pub write_lag_players : List LagPlayer → Go (Unit {0})
write_lag_players [] = return tt
write_lag_players (lp ∷ players) = do serialize_lag_player lp; write_lag_players players

unfoldable pub read_lag_players : ℕ → Go (List LagPlayer)
read_lag_players zero = return []
read_lag_players (suc n) = do
  lp ← deserialize_lag_player
  players ← read_lag_players n
  return (lp ∷ players)

unfoldable pub serialize_start_lag : StartLag → Go (Unit {0})
serialize_start_lag pkt = do
  write_uint8 protocol_sig
  write_uint8 Pid.start_lag
  write_uint16 ((5 + length pkt.players * 5) % 2 ^ 16)
  write_uint8 (byte (length pkt.players))
  write_lag_players pkt.players

unfoldable pub deserialize_start_lag : Go StartLag
deserialize_start_lag = do
  size ← read_packet_size
  reject_if (size_lt size 5) invalid_packet_size
  num_players ← read_uint8
  reject_if (size_ne size (5 + num_players * 5)) invalid_packet_size
  players ← read_lag_players num_players
  return (record { players = players })

-- StopLag embeds LagPlayer.
unfoldable pub serialize_stop_lag : LagPlayer → Go (Unit {0})
serialize_stop_lag pkt = do
  write_uint8 protocol_sig
  write_uint8 Pid.stop_lag
  write_uint16 9
  serialize_lag_player pkt

unfoldable pub deserialize_stop_lag : Go LagPlayer
deserialize_stop_lag = do
  size ← read_packet_size
  reject_if (size_ne size 9) invalid_packet_size
  deserialize_lag_player

unfoldable pub serialize_drop_laggers : Unit {0} → Go (Unit {0})
serialize_drop_laggers pkt = do write_uint8 protocol_sig; write_uint8 Pid.drop_req; write_uint16 4

unfoldable pub deserialize_drop_laggers : Go (Unit {0})
deserialize_drop_laggers = do
  size ← read_packet_size
  reject_if (size_ne size 4) invalid_packet_size
  return tt
