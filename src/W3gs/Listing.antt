-- ===== src/W3gs/Listing.antt =====
-- protocol/w3gs/packets.go: SearchGame, CreateGame, RefreshGame and DecreateGame.
pub mod RoundTrip
pub mod Safety
use gowarcraft.Prelude.{ℕ, ◌+◌, Bool, true, false, length, ◌==◌, not, if◌then◌else◌}
use gowarcraft.Protocol.Go.{Go, ◌>>=◌, ◌>>◌, return, reject_if, get_bytes, invalid_packet_size}
use gowarcraft.Protocol.Go.{unexpected_const}
use gowarcraft.Protocol.Buffer.{read_uint8, read_uint16, read_uint32, read_bed_string}
use gowarcraft.Protocol.Buffer.{write_uint8, write_uint16, write_uint32, write_bed_string}
use gowarcraft.Protocol.Buffer.{write_uint8_at}
use gowarcraft.W3gs.Header.{protocol_sig, read_packet_size, size_ne}
use gowarcraft.W3gs.Pid

pub record SearchGame : Type 0 where
  pub product : ℕ
  pub version : ℕ
  pub host_counter : ℕ

unfoldable pub serialize_search_game : SearchGame → Go (Unit {0})
serialize_search_game pkt = do
  write_uint8 protocol_sig
  write_uint8 Pid.search_game
  write_uint16 16
  write_bed_string pkt.product
  write_uint32 pkt.version
  write_uint32 pkt.host_counter

unfoldable pub deserialize_search_game : Go SearchGame
deserialize_search_game = do
  size ← read_packet_size
  reject_if (size_ne size 16) invalid_packet_size
  product ← read_bed_string
  version ← read_uint32
  host_counter ← read_uint32
  return (record { product = product; version = version; host_counter = host_counter })

pub record CreateGame : Type 0 where
  pub product : ℕ
  pub version : ℕ
  pub host_counter : ℕ

unfoldable pub serialize_create_game : CreateGame → Go (Unit {0})
serialize_create_game pkt = do
  write_uint8 protocol_sig
  write_uint8 Pid.create_game
  write_uint16 16
  write_bed_string pkt.product
  write_uint32 pkt.version
  write_uint32 pkt.host_counter

unfoldable pub deserialize_create_game : Go CreateGame
deserialize_create_game = do
  size ← read_packet_size
  reject_if (size_ne size 16) invalid_packet_size
  product ← read_bed_string
  version ← read_uint32
  host_counter ← read_uint32
  return (record { product = product; version = version; host_counter = host_counter })

pub record RefreshGame : Type 0 where
  pub host_counter : ℕ
  pub slots_used : ℕ
  pub slots_available : ℕ

unfoldable pub serialize_refresh_game : RefreshGame → Go (Unit {0})
serialize_refresh_game pkt = do
  write_uint8 protocol_sig
  write_uint8 Pid.refresh_game
  write_uint16 16
  write_uint32 pkt.host_counter
  write_uint32 pkt.slots_used
  write_uint32 pkt.slots_available

unfoldable pub deserialize_refresh_game : Go RefreshGame
deserialize_refresh_game = do
  size ← read_packet_size
  reject_if (size_ne size 16) invalid_packet_size
  host_counter ← read_uint32
  slots_used ← read_uint32
  slots_available ← read_uint32
  return (record {
    host_counter = host_counter;
    slots_used = slots_used;
    slots_available = slots_available;
  })

pub record DecreateGame : Type 0 where
  pub host_counter : ℕ

unfoldable pub serialize_decreate_game : DecreateGame → Go (Unit {0})
serialize_decreate_game pkt = do
  write_uint8 protocol_sig
  write_uint8 Pid.decreate_game
  write_uint16 8
  write_uint32 pkt.host_counter

unfoldable pub deserialize_decreate_game : Go DecreateGame
deserialize_decreate_game = do
  size ← read_packet_size
  reject_if (size_ne size 8) invalid_packet_size
  host_counter ← read_uint32
  return (record { host_counter = host_counter })
