-- ===== src/W3gs/TimeSlot.antt =====
-- protocol/w3gs/packets.go: TimeSlot and PlayerAction. The IEEE CRC-32 of hash/crc32 is a parameter.
pub mod RoundTrip
pub mod Panic
use gowarcraft.Prelude.{
  ℕ, zero, suc, ◌+◌, ◌-◌, ◌%◌, ◌^◌, ◌==◌, not, ltb, leb, length, List, [], ◌∷◌,
}
use gowarcraft.Prelude.{Bool, true, false, if◌then◌else◌, take, drop, some}
use gowarcraft.Protocol.Go.{
  Bytes, Go, ◌>>=◌, ◌>>◌, return, throw, reject_if, get_bytes, done, panic,
}
use gowarcraft.Protocol.Go.{invalid_packet_size, invalid_checksum}
use gowarcraft.Protocol.Buffer.{read_uint8, read_uint16, read_blob, write_uint8, write_uint16}
use gowarcraft.Protocol.Buffer.{write_uint16_at, write_blob}
use gowarcraft.W3gs.Header.{protocol_sig, read_packet_header, size_eq, size_lt, int_of}
use gowarcraft.W3gs.Pid

pub record PlayerAction : Type 0 where
  pub player_id : ℕ
  pub content : Bytes

pub record TimeSlot : Type 0 where
  pub fragment : Bool
  pub time_increment_ms : ℕ
  pub actions : List PlayerAction

unfoldable pub write_actions : List PlayerAction → Go (Unit {0})
write_actions [] = return tt
write_actions (a ∷ actions) = do
  write_uint8 a.player_id
  write_uint16 (length a.content % 2 ^ 16)
  write_blob a.content
  write_actions actions

-- The loop over the actions, with `size` bytes of the packet left. `size -= 3 + subsize` may leave
-- a negative size, which ends the loop and is refused behind it. Each round takes three bytes at
-- least; the fuel given is `size`.
abbrev pub read_last : ℕ → Go (List PlayerAction)
read_last size = do reject_if (not (size == 0)) invalid_packet_size; return []

abbrev pub read_rest : ℕ → (ℕ → Go (List PlayerAction)) → ℕ → Go (List PlayerAction)
read_rest size loop subsize =
    if ltb size (3 + subsize) then throw invalid_packet_size else loop (size - (3 + subsize))

unfoldable pub read_action : ℕ → (ℕ → Go (List PlayerAction)) → Go (List PlayerAction)
read_action size rest = do
  player_id ← read_uint8
  subsize ← read_uint16
  reject_if (ltb size subsize) invalid_packet_size
  content ← read_blob subsize
  actions ← rest subsize
  return (record { player_id = player_id; content = content } ∷ actions)

unfoldable pub read_actions : ℕ → ℕ → Go (List PlayerAction)
read_actions zero size = read_last size
read_actions (suc fuel) size =
    if ltb size 3 then read_last size else read_action size (read_rest size (read_actions fuel))

-- buf.Bytes[:n]
abbrev pub slice_to : ℕ → Go Bytes
slice_to n b = if leb n (length b) then done (take n b) b else panic

module _ (crc32 : Bytes → ℕ) where
  unfoldable pub serialize_time_slot : TimeSlot → Go (Unit {0})
  serialize_time_slot pkt = do
    start ← get_bytes
    write_uint8 protocol_sig
    write_uint8 (if pkt.fragment then Pid.incoming_action2 else Pid.incoming_action)
    write_uint16 0
    write_uint16 pkt.time_increment_ms
    write_uint16 0
    write_actions pkt.actions
    buf ← get_bytes
    write_uint16_at (length start + 2) ((length buf - length start) % 2 ^ 16)
    buf ← get_bytes
    write_uint16_at (length start + 6) (crc32 (drop (length start + 8) buf) % 2 ^ 16)

  abbrev pub read_time_slot_body : Bool → ℕ → ℕ → Go TimeSlot
  read_time_slot_body fragment time_increment_ms size = do
    reject_if (ltb size 8) invalid_packet_size
    crc ← read_uint16
    payload ← slice_to (size - 8)
    reject_if (not (crc == crc32 payload % 2 ^ 16)) invalid_checksum
    actions ← read_actions (size - 8) (size - 8)
    return
        (record { fragment = fragment; time_increment_ms = time_increment_ms; actions = actions })

  unfoldable pub deserialize_time_slot : Go TimeSlot
  deserialize_time_slot = do
    (pid, size) ← read_packet_header
    reject_if (size_lt size 6) invalid_packet_size
    time_increment_ms ← read_uint16
    (if size_eq size 6
        then return (record {
          fragment = pid == Pid.incoming_action2;
          time_increment_ms = time_increment_ms;
          actions = [];
        })
        else read_time_slot_body (pid == Pid.incoming_action2) time_increment_ms (int_of size))
