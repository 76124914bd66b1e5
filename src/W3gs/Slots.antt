-- ===== src/W3gs/Slots.antt =====
-- protocol/w3gs/packets.go: SlotData, SlotInfo and SlotInfoJoin.
pub mod RoundTrip
pub mod Panic
use gowarcraft.Prelude.{
  ℕ, zero, suc, ◌+◌, ◌-◌, ◌*◌, ◌/◌, ◌%◌, ◌^◌, ◌==◌, not, ltb, length, List, [],
}
use gowarcraft.Prelude.{◌∷◌, Bool, true, false, ◌&&◌, if◌then◌else◌}
use gowarcraft.Protocol.Go.{Bytes, Go, ◌>>=◌, ◌>>◌, return, reject_if, get_bytes}
use gowarcraft.Protocol.Go.{invalid_packet_size}
use gowarcraft.Protocol.Buffer.{SockAddr, byte, read_uint8, read_uint16, read_uint32, read_bool8}
use gowarcraft.Protocol.Buffer.{
  read_sock_addr, write_uint8, write_uint16, write_uint32, write_bool8,
}
use gowarcraft.Protocol.Buffer.{write_sock_addr}
use gowarcraft.W3gs.Header.{protocol_sig, read_packet_size, size_eq, size_ne, size_lt}
use gowarcraft.W3gs.Pid

pub record SlotData : Type 0 where
  pub player_id : ℕ
  pub download_status : ℕ
  pub slot_status : ℕ
  pub computer : Bool
  pub team : ℕ
  pub color : ℕ
  pub race : ℕ
  pub computer_type : ℕ
  pub handicap : ℕ

pub record SlotInfo : Type 0 where
  pub slots : List SlotData
  pub random_seed : ℕ
  pub slot_layout : ℕ
  pub num_players : ℕ

abbrev pub computer_normal : ℕ
computer_normal = 1

-- The slots of SerializeContent.
unfoldable pub write_slot : SlotData → Go (Unit {0})
write_slot s = do
  write_uint8 s.player_id
  write_uint8 s.download_status
  write_uint8 s.slot_status
  write_bool8 s.computer
  write_uint8 s.team
  write_uint8 s.color
  write_uint8 s.race
  write_uint8 s.computer_type
  write_uint8 s.handicap

unfoldable pub write_slots : List SlotData → Go (Unit {0})
write_slots [] = return tt
write_slots (s ∷ slots) = do write_slot s; write_slots slots

unfoldable pub serialize_slot_info_content : SlotInfo → Go (Unit {0})
serialize_slot_info_content pkt = do
  write_uint16 ((7 + length pkt.slots * 9) % 2 ^ 16)
  write_uint8 (byte (length pkt.slots))
  write_slots pkt.slots
  write_uint32 pkt.random_seed
  write_uint8 pkt.slot_layout
  write_uint8 pkt.num_players

-- (dataSize - 7) / numSlots, which Go truncates towards zero: `minus n` is -n.
pub data SlotSize : Type 0 where
  plus : ℕ → SlotSize
  minus : ℕ → SlotSize

abbrev pub slot_size : ℕ → ℕ → SlotSize
slot_size data_size num_slots =
    if ltb 0 num_slots
    then (if ltb data_size 7
        then minus ((7 - data_size) / num_slots)
        else plus ((data_size - 7) / num_slots))
    else plus 9

-- slotSize > n
abbrev pub exceeds : SlotSize → ℕ → Bool
exceeds (plus s) n = ltb n s
exceeds (minus s) n = false

-- dataSize == 7 + numSlots*slotSize
abbrev pub is_data_size : ℕ → ℕ → SlotSize → Bool
is_data_size data_size num_slots (plus s) = data_size == 7 + num_slots * s
is_data_size data_size num_slots (minus s) = data_size + num_slots * s == 7

-- A field that a short slot does not have takes its default.
abbrev pub read_field : Bool → ℕ → Go ℕ
read_field true default = read_uint8
read_field false default = return default

unfoldable pub read_slot : SlotSize → Go SlotData
read_slot size = do
  player_id ← read_uint8
  download_status ← read_uint8
  slot_status ← read_uint8
  computer ← read_bool8
  team ← read_uint8
  color ← read_uint8
  race ← read_uint8
  computer_type ← read_field (exceeds size 7) computer_normal
  handicap ← read_field (exceeds size 8) 100
  return (record {
    player_id = player_id;
    download_status = download_status;
    slot_status = slot_status;
    computer = computer;
    team = team;
    color = color;
    race = race;
    computer_type = computer_type;
    handicap = handicap;
  })

unfoldable pub read_slots : SlotSize → ℕ → Go (List SlotData)
read_slots size zero = return []
read_slots size (suc n) = do slot ← read_slot size; slots ← read_slots size n; return (slot ∷ slots)

abbrev pub no_slots : SlotInfo
no_slots = record { slots = []; random_seed = 0; slot_layout = 0; num_players = 0 }

abbrev pub read_slot_info : ℕ → Go SlotInfo
read_slot_info data_size = do
  buf ← get_bytes
  reject_if (ltb (length buf) data_size) invalid_packet_size
  num_slots ← read_uint8
  reject_if (not (is_data_size data_size num_slots (slot_size data_size num_slots)))
      invalid_packet_size
  slots ← read_slots (slot_size data_size num_slots) num_slots
  random_seed ← read_uint32
  slot_layout ← read_uint8
  num_players ← read_uint8
  return (record {
    slots = slots;
    random_seed = random_seed;
    slot_layout = slot_layout;
    num_players = num_players;
  })

unfoldable pub deserialize_slot_info_content : Go SlotInfo
deserialize_slot_info_content = do
  data_size ← read_uint16
  (if data_size == 0 then return no_slots else read_slot_info data_size)

unfoldable pub serialize_slot_info : SlotInfo → Go (Unit {0})
serialize_slot_info pkt = do
  write_uint8 protocol_sig
  write_uint8 Pid.slot_info
  write_uint16 ((13 + length pkt.slots * 9) % 2 ^ 16)
  serialize_slot_info_content pkt

unfoldable pub deserialize_slot_info : Go SlotInfo
deserialize_slot_info = do
  size ← read_packet_size
  reject_if (size_lt size 13) invalid_packet_size
  pkt ← deserialize_slot_info_content
  reject_if (size_ne size (13 + length pkt.slots * 9)) invalid_packet_size
  return pkt

pub record SlotInfoJoin : Type 0 where
  pub slot_info : SlotInfo
  pub player_id : ℕ
  pub external_addr : SockAddr

unfoldable pub serialize_slot_info_join : SlotInfoJoin → Go (Unit {0})
serialize_slot_info_join pkt = do
  write_uint8 protocol_sig
  write_uint8 Pid.slot_info_join
  write_uint16 ((30 + length pkt.slot_info.slots * 9) % 2 ^ 16)
  serialize_slot_info_content pkt.slot_info
  write_uint8 pkt.player_id
  write_sock_addr pkt.external_addr

-- size != 30+len(pkt.Slots)*9 && !(size == 23 && len(pkt.Slots) == 0)
unfoldable pub deserialize_slot_info_join : Go SlotInfoJoin
deserialize_slot_info_join = do
  size ← read_packet_size
  reject_if (size_lt size 23) invalid_packet_size
  info ← deserialize_slot_info_content
  reject_if
      (size_ne size (30 + length info.slots * 9) && not (size_eq size 23 && length info.slots == 0))
      invalid_packet_size
  player_id ← read_uint8
  external_addr ← read_sock_addr
  return (record { slot_info = info; player_id = player_id; external_addr = external_addr })
