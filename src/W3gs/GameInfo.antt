-- ===== src/W3gs/GameInfo.antt =====
-- protocol/w3gs/packets.go: GameVersion, GameSettings and GameInfo.
pub mod RoundTrip
use gowarcraft.Prelude.{
  ℕ, ◌+◌, ◌/◌, ◌%◌, ◌^◌, ◌==◌, not, ltb, length, ◌&&◌, ◌||◌, if◌then◌else◌, [], ◌∷◌,
}
use gowarcraft.Protocol.Go.{Bytes, Go, Outcome, done, fail, panic, ◌>>=◌, ◌>>◌, return, reject_if}
use gowarcraft.Protocol.Go.{get_bytes, invalid_packet_size, unexpected_const}
use gowarcraft.Protocol.Buffer.{read_uint8, read_uint16, read_uint32, read_blob, read_c_string}
use gowarcraft.Protocol.Buffer.{
  read_bed_string, write_uint8, write_uint16, write_uint32, write_blob,
}
use gowarcraft.Protocol.Buffer.{write_c_string, write_bed_string}
use gowarcraft.W3gs.Header.{protocol_sig, read_packet_size, size_ne, size_lt}
use gowarcraft.W3gs.Pid
use gowarcraft.W3gs.StatString.{encode_stat, decode_stat}

pub record GameVersion : Type 0 where
  pub product : ℕ
  pub version : ℕ

unfoldable pub serialize_game_version : GameVersion → Go (Unit {0})
serialize_game_version gv = do write_bed_string gv.product; write_uint32 gv.version

unfoldable pub deserialize_game_version : Go GameVersion
deserialize_game_version = do
  product ← read_bed_string
  version ← read_uint32
  return (record { product = product; version = version })

-- `map_sha1` is an array of twenty bytes.
pub record GameSettings : Type 0 where
  pub flags : ℕ
  pub map_width : ℕ
  pub map_height : ℕ
  pub map_xoro : ℕ
  pub map_path : Bytes
  pub host_name : Bytes
  pub map_sha1 : Bytes

-- int(math.Ceil(float64(size)/7)) is the quotient rounded up: the sizes are far below 2^53.
unfoldable pub settings_size : GameSettings → ℕ
settings_size gs =
    let size = 36 + length gs.map_path + length gs.host_name in size + (size + 6) / 7 + 1

-- A second Buffer is filled while the first one waits.
abbrev pub on_new_buffer : Go (Unit {0}) → (Bytes → Go (Unit {0})) → Go (Unit {0})
on_new_buffer m f b = elim (m []) [ done _ s ↦ f s b | fail e s ↦ fail e b | panic ↦ panic ]

abbrev pub write_settings : GameSettings → Go (Unit {0})
write_settings gs = do
  write_uint32 gs.flags
  write_uint8 0
  write_uint16 gs.map_width
  write_uint16 gs.map_height
  write_uint32 gs.map_xoro
  write_c_string gs.map_path
  write_c_string gs.host_name
  write_uint8 0
  write_blob gs.map_sha1

unfoldable pub serialize_game_settings : GameSettings → Go (Unit {0})
serialize_game_settings gs =
    on_new_buffer (write_settings gs) (λ s. do write_blob (encode_stat 0 s); write_uint8 0)

-- A decoded string is read in a Buffer of its own, and the first one stays as it is.
abbrev pub read_from {ℓ} : {A : Type ℓ} → Bytes → Go A → Go A
read_from s m b = elim (m s) [ done a _ ↦ done a b | fail e _ ↦ fail e b | panic ↦ panic ]

abbrev pub zero_sha1 : Bytes
zero_sha1 = 0 ∷ 0 ∷ 0 ∷ 0 ∷ 0 ∷ 0 ∷ 0 ∷ 0 ∷ 0 ∷ 0 ∷ 0 ∷ 0 ∷ 0 ∷ 0 ∷ 0 ∷ 0 ∷ 0 ∷ 0 ∷ 0 ∷ 0 ∷ []

-- `size -= 16 + …` may be negative, which is neither 0 nor 20.
abbrev pub read_settings : ℕ → Go GameSettings
read_settings size = do
  flags ← read_uint32
  kind ← read_uint8
  reject_if (not (kind == 0 || kind == 1 || kind == 2)) unexpected_const
  map_width ← read_uint16
  map_height ← read_uint16
  map_xoro ← read_uint32
  map_path ← read_c_string
  reject_if (ltb size (16 + length map_path)) invalid_packet_size
  host_name ← read_c_string
  reject_if
      (not (size == 16 + length map_path + length host_name)
        && not (size == 36 + length map_path + length host_name))
      invalid_packet_size
  constant ← read_uint8
  reject_if (not (constant == 0)) unexpected_const
  map_sha1 ←
      (if size == 16 + length map_path + length host_name then return zero_sha1 else read_blob 20)
  return (record {
    flags = flags;
    map_width = map_width;
    map_height = map_height;
    map_xoro = map_xoro;
    map_path = map_path;
    host_name = host_name;
    map_sha1 = map_sha1;
  })

unfoldable pub deserialize_game_settings : Go GameSettings
deserialize_game_settings = do
  stat ← read_c_string
  reject_if (ltb (length stat) 16) invalid_packet_size
  read_from (decode_stat 0 0 stat) (read_settings (length (decode_stat 0 0 stat)))

pub record GameInfo : Type 0 where
  pub game_version : GameVersion
  pub host_counter : ℕ
  pub entry_key : ℕ
  pub game_name : Bytes
  pub game_settings : GameSettings
  pub slots_total : ℕ
  pub game_flags : ℕ
  pub slots_used : ℕ
  pub slots_available : ℕ
  pub uptime_sec : ℕ
  pub game_port : ℕ

unfoldable pub serialize_game_info : GameInfo → Go (Unit {0})
serialize_game_info pkt = do
  write_uint8 protocol_sig
  write_uint8 Pid.game_info
  write_uint16 ((44 + length pkt.game_name + settings_size pkt.game_settings) % 2 ^ 16)
  serialize_game_version pkt.game_version
  write_uint32 pkt.host_counter
  write_uint32 pkt.entry_key
  write_c_string pkt.game_name
  write_uint8 0
  serialize_game_settings pkt.game_settings
  write_uint32 pkt.slots_total
  write_uint32 pkt.game_flags
  write_uint32 pkt.slots_used
  write_uint32 pkt.slots_available
  write_uint32 pkt.uptime_sec
  write_uint16 pkt.game_port

unfoldable pub deserialize_game_info : Go GameInfo
deserialize_game_info = do
  size ← read_packet_size
  reject_if (size_lt size 45) invalid_packet_size
  game_version ← deserialize_game_version
  host_counter ← read_uint32
  entry_key ← read_uint32
  game_name ← read_c_string
  reject_if (size_lt size (45 + length game_name)) invalid_packet_size
  constant ← read_uint8
  reject_if (not (constant == 0)) unexpected_const
  game_settings ← deserialize_game_settings
  reject_if (size_ne size (44 + length game_name + settings_size game_settings)) invalid_packet_size
  slots_total ← read_uint32
  game_flags ← read_uint32
  slots_used ← read_uint32
  slots_available ← read_uint32
  uptime_sec ← read_uint32
  game_port ← read_uint16
  return (record {
    game_version = game_version;
    host_counter = host_counter;
    entry_key = entry_key;
    game_name = game_name;
    game_settings = game_settings;
    slots_total = slots_total;
    game_flags = game_flags;
    slots_used = slots_used;
    slots_available = slots_available;
    uptime_sec = uptime_sec;
    game_port = game_port;
  })
