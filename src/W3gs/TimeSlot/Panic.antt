-- ===== src/W3gs/TimeSlot/Panic.antt =====
-- TimeSlot: Deserialize on a packet whose last action is cut off.
use gowarcraft.Prelude.{ℕ, ◌%◌, ◌^◌, ◌≤◌, ◌≡◌, [], ◌∷◌, arith}
use gowarcraft.Protocol.Go.{Bytes, panic}
use gowarcraft.Protocol.Buffer.RoundTrip.{le16}
use gowarcraft.W3gs.Header.{header_calls}
use gowarcraft.W3gs.Header.RoundTrip.{packet_bytes}
use gowarcraft.W3gs.TimeSlot.{deserialize_time_slot, read_actions, read_action}

-- One action of `n` announced bytes, and nothing behind it.
abbrev pub short_action : ℕ → ℕ → Bytes
short_action player n = player ∷ le16 n []

abbrev pub short_packet : (Bytes → ℕ) → ℕ → ℕ → ℕ → ℕ → Bytes
short_packet crc32 pid time player n =
    packet_bytes pid 11
      (le16 time (le16 (crc32 (short_action player n) % 2 ^ 16) (short_action player n)))

-- Deserialize of a TimeSlot panics on the packet of eleven bytes with a right checksum whose one
-- action announces one, two or three bytes and has none.
pub deserialize_time_slot_panics :
    (crc32 : Bytes → ℕ) (pid time player n : ℕ)
    → 1 ≤ n
    → n ≤ 3
    → deserialize_time_slot crc32 (short_packet crc32 pid time player n) ≡ panic
unfolding deserialize_time_slot read_actions read_action header_calls
deserialize_time_slot_panics crc32 pid time player n lo hi = ground arith
