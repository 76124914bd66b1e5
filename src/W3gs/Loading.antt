-- ===== src/W3gs/Loading.antt =====
-- protocol/w3gs/packets.go: CountDownStart, CountDownEnd, GameLoaded, PlayerLoaded and GameOver.
pub mod RoundTrip
pub mod Safety
use gowarcraft.Prelude.{ℕ, ◌+◌, Bool, true, false, length, ◌==◌, not, if◌then◌else◌}
use gowarcraft.Protocol.Go.{Go, ◌>>=◌, ◌>>◌, return, reject_if, get_bytes, invalid_packet_size}
use gowarcraft.Protocol.Go.{unexpected_const}
use gowarcraft.Protocol.Buffer.{read_uint8, read_uint16, read_uint32, read_bed_string}
use gowarcraft.Protocol.Buffer.{write_uint8, write_uint16, write_uint32, write_bed_string}
use gowarcraft.Protocol.Buffer.{write_uint8_at}
use gowarcraft.W3gs.Header.{protocol_sig, read_packet_size, size_ne}
use gowarcraft.W3gs.Pid

unfoldable pub serialize_count_down_start : Unit {0} → Go (Unit {0})
serialize_count_down_start pkt = do
  write_uint8 protocol_sig
  write_uint8 Pid.count_down_start
  write_uint16 4

unfoldable pub deserialize_count_down_start : Go (Unit {0})
deserialize_count_down_start = do
  size ← read_packet_size
  reject_if (size_ne size 4) invalid_packet_size
  return tt

unfoldable pub serialize_count_down_end : Unit {0} → Go (Unit {0})
serialize_count_down_end pkt = do
  write_uint8 protocol_sig
  write_uint8 Pid.count_down_end
  write_uint16 4

unfoldable pub deserialize_count_down_end : Go (Unit {0})
deserialize_count_down_end = do
  size ← read_packet_size
  reject_if (size_ne size 4) invalid_packet_size
  return tt

unfoldable pub serialize_game_loaded : Unit {0} → Go (Unit {0})
serialize_game_loaded pkt = do
  write_uint8 protocol_sig
  write_uint8 Pid.game_loaded_self
  write_uint16 4

unfoldable pub deserialize_game_loaded : Go (Unit {0})
deserialize_game_loaded = do
  size ← read_packet_size
  reject_if (size_ne size 4) invalid_packet_size
  return tt

pub record PlayerLoaded : Type 0 where
  pub player_id : ℕ

unfoldable pub serialize_player_loaded : PlayerLoaded → Go (Unit {0})
serialize_player_loaded pkt = do
  write_uint8 protocol_sig
  write_uint8 Pid.player_loaded
  write_uint16 5
  write_uint8 pkt.player_id

unfoldable pub deserialize_player_loaded : Go PlayerLoaded
deserialize_player_loaded = do
  size ← read_packet_size
  reject_if (size_ne size 5) invalid_packet_size
  player_id ← read_uint8
  return (record { player_id = player_id })

pub record GameOver : Type 0 where
  pub player_id : ℕ

unfoldable pub serialize_game_over : GameOver → Go (Unit {0})
serialize_game_over pkt = do
  write_uint8 protocol_sig
  write_uint8 Pid.game_over
  write_uint16 5
  write_uint8 pkt.player_id

unfoldable pub deserialize_game_over : Go GameOver
deserialize_game_over = do
  size ← read_packet_size
  reject_if (size_ne size 5) invalid_packet_size
  player_id ← read_uint8
  return (record { player_id = player_id })
