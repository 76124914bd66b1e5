-- ===== src/W3gs/Slots/Panic.antt =====
-- SlotInfo and SlotInfoJoin: Deserialize on packets that are counted wrongly.
use gowarcraft.Prelude.{ℕ, suc, ◌/◌, ◌≡◌, [], ◌∷◌, refl, arith}
use gowarcraft.Protocol.Go.{panic}
use gowarcraft.Protocol.Buffer.{buffer_calls, read_sock_addr}
use gowarcraft.Protocol.Buffer.RoundTrip.{le16}
use gowarcraft.W3gs.Header.{header_calls}
use gowarcraft.W3gs.Header.RoundTrip.{packet_bytes}
use gowarcraft.W3gs.Pid
use gowarcraft.W3gs.Slots.{
  SlotSize, plus, slot_size, deserialize_slot_info, deserialize_slot_info_join, read_slots,
}
use gowarcraft.W3gs.Slots.{deserialize_slot_info_content, read_slot}

-- A slot takes seven bytes at least, so six bytes do not hold one.
read_slots_panics :
    (size : SlotSize) (n a b c d e f : ℕ)
    → read_slots size (suc n) (a ∷ b ∷ c ∷ d ∷ e ∷ f ∷ []) ≡ panic
unfolding read_slots read_slot buffer_calls
read_slots_panics size n a b c d e f = ground arith

zero-div : (n : ℕ) → 0 / suc n ≡ 0
zero-div n = grind arith

slot_size_zero : (n : ℕ) → slot_size 7 (suc n) ≡ plus 0
slot_size_zero n = ground (arith, zero-div n)

-- Deserialize of a SlotInfo panics on a packet of size 13 whose data size 7 makes the slots zero
-- bytes long, with one slot or more, whatever the other six bytes are.
pub deserialize_slot_info_panics :
    (n a b c d e f : ℕ)
    → deserialize_slot_info
        (packet_bytes Pid.slot_info 13 (le16 7 (suc n ∷ a ∷ b ∷ c ∷ d ∷ e ∷ f ∷ [])))
      ≡ panic
unfolding deserialize_slot_info deserialize_slot_info_content header_calls
deserialize_slot_info_panics n a b c d e f =
    ground (arith, zero-div n, read_slots_panics (plus 0) n a b c d e f)

-- Deserialize of a SlotInfoJoin panics on a packet of size 23 with data size 7, no slots and an
-- address family, whatever the other bytes are.
pub deserialize_slot_info_join_panics :
    (s0 s1 s2 s3 layout players pid p0 p1 i0 i1 i2 i3 x : ℕ)
    → deserialize_slot_info_join (
        packet_bytes Pid.slot_info_join 23 (
          le16 7 (
            0 ∷ s0 ∷ s1 ∷ s2 ∷ s3 ∷ layout ∷ players ∷ pid ∷ 2 ∷ 0 ∷ p0 ∷ p1 ∷ i0 ∷ i1 ∷ i2 ∷ i3 ∷ x
            ∷ [])))
      ≡ panic
unfolding deserialize_slot_info_join deserialize_slot_info_content read_slots read_sock_addr
    header_calls
deserialize_slot_info_join_panics s0 s1 s2 s3 layout players pid p0 p1 i0 i1 i2 i3 x = refl
