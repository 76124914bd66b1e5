-- ===== src/W3gs/Slots/RoundTrip.antt =====
-- SlotInfo and SlotInfoJoin: Serialize followed by Deserialize.
use gowarcraft.Prelude.{true}
use gowarcraft.Prelude.{ℕ, zero, suc, ◌+◌, ◌*◌, ◌/◌, ◌%◌, ◌^◌, ◌≡◌, List, [], ◌∷◌, ◌++◌, length}
use gowarcraft.Prelude.{IsU8, IsU32, arith, append_assoc, append-nil, refl}
use gowarcraft.Protocol.Go.{Bytes, ◌>>=◌, done, and_then}
use gowarcraft.Protocol.Buffer.{buffer_calls, byte, bit_of}
use gowarcraft.Protocol.Buffer.RoundTrip.{le16, le32}
use gowarcraft.Protocol.Buffer.Address.{ValidSockAddr, encode_sock_addr, length-encode_sock_addr}
use gowarcraft.Protocol.Buffer.Address.{write_sock_addr_lem, read_sock_addr-encode}
use gowarcraft.W3gs.Header.RoundTrip.{
  framed, framed-packet_bytes, packet_bytes, read_packet_size-packet_bytes,
}
use gowarcraft.W3gs.Pid
use gowarcraft.W3gs.Slots.{SlotData, SlotInfo, SlotInfoJoin, plus, slot_size, write_slot}
use gowarcraft.W3gs.Slots.{write_slots, read_slot, read_slots, serialize_slot_info_content}
use gowarcraft.W3gs.Slots.{
  deserialize_slot_info_content, serialize_slot_info, deserialize_slot_info,
}
use gowarcraft.W3gs.Slots.{serialize_slot_info_join, deserialize_slot_info_join}

slot_bytes : List SlotData → Bytes → Bytes
slot_bytes [] rest = rest
slot_bytes (s ∷ slots) rest =
    s.player_id
    ∷ s.download_status
    ∷ s.slot_status
    ∷ bit_of s.computer
    ∷ s.team
    ∷ s.color
    ∷ s.race
    ∷ s.computer_type
    ∷ s.handicap
    ∷ slot_bytes slots rest

length-slot_bytes :
    (slots : List SlotData) (rest : Bytes)
    → length (slot_bytes slots rest) ≡ length slots * 9 + length rest
unfolding slot_bytes
length-slot_bytes [] rest = omega arith
length-slot_bytes (s ∷ slots) rest = omega (arith, length-slot_bytes slots rest)

slot_bytes-append :
    (slots : List SlotData) (rest more : Bytes)
    → slot_bytes slots rest ++ more ≡ slot_bytes slots (rest ++ more)
unfolding slot_bytes
slot_bytes-append [] rest more = refl
slot_bytes-append (s ∷ slots) rest more = rw (slot_bytes-append slots rest more)

write_slots-bytes :
    (slots : List SlotData) (b : Bytes) → write_slots slots b ≡ done tt (b ++ slot_bytes slots [])
unfolding write_slots write_slot slot_bytes buffer_calls
write_slots-bytes [] b = rw append-nil
write_slots-bytes (s ∷ slots) b = rw (write_slots-bytes slots) (simp append_assoc)

read_slots-bytes :
    (slots : List SlotData) (rest : Bytes)
    → read_slots (plus 9) (length slots) (slot_bytes slots rest) ≡ done slots rest
unfolding read_slots read_slot slot_bytes buffer_calls
read_slots-bytes [] rest = refl
read_slots-bytes (s ∷ slots) rest = ground (arith, read_slots-bytes slots rest)

-- A content with at most 255 slots has slots of nine bytes.
slot_size_nine : (n : ℕ) → slot_size (7 + n * 9) n ≡ plus 9
slot_size_nine zero = refl
slot_size_nine (suc n) = ground (arith, quotient)
  where
    quotient : (suc n * 9) / suc n ≡ 9
    quotient = grind arith

pub record ValidSlotInfo (p : SlotInfo) : Type 0 where
  pub random_seed : IsU32 p.random_seed
  pub fits : IsU8 (length p.slots)

module _ (p : SlotInfo) (h : ValidSlotInfo p) where
  content_bytes : Bytes → Bytes
  content_bytes rest = le16 ((7 + length p.slots * 9) % 2 ^ 16) (
      byte (length p.slots)
      ∷ slot_bytes p.slots (le32 p.random_seed (p.slot_layout ∷ p.num_players ∷ rest)))

  length-content_bytes :
      (rest : Bytes) → length (content_bytes rest) ≡ 9 + length p.slots * 9 + length rest
  unfolding content_bytes
  length-content_bytes rest =
      omega (
        arith,
        length-slot_bytes p.slots (le32 p.random_seed (p.slot_layout ∷ p.num_players ∷ rest)),
      )

  write_content : (b : Bytes) → serialize_slot_info_content p b ≡ done tt (b ++ content_bytes [])
  unfolding serialize_slot_info_content content_bytes buffer_calls
  write_content b = rw (write_slots-bytes p.slots) (simp (append_assoc, slot_bytes-append))

  read_content : (rest : Bytes) → deserialize_slot_info_content (content_bytes rest) ≡ done p rest
  unfolding deserialize_slot_info_content content_bytes buffer_calls
  read_content rest = ground (
    arith,
    slot_size_nine (length p.slots),
    length-slot_bytes p.slots (le32 p.random_seed (p.slot_layout ∷ p.num_players ∷ rest)),
    read_slots-bytes p.slots (le32 p.random_seed (p.slot_layout ∷ p.num_players ∷ rest)),
  )

  info_bytes : Bytes
  info_bytes = packet_bytes Pid.slot_info ((13 + length p.slots * 9) % 2 ^ 16) (content_bytes [])

  serialize_slot_info-bytes : serialize_slot_info p [] ≡ done tt info_bytes
  unfolding serialize_slot_info info_bytes buffer_calls
  serialize_slot_info-bytes = rw write_content

  deserialize_slot_info-bytes : deserialize_slot_info info_bytes ≡ done p []
  unfolding deserialize_slot_info info_bytes
  deserialize_slot_info-bytes =
      rw
        (read_packet_size-packet_bytes Pid.slot_info (13 + length p.slots * 9) (content_bytes [])
          (omega (arith, h.fits)) (omega (arith, length-content_bytes [])))
        (unfold buffer_calls in ground (arith, read_content []))

  pub serialize_slot_info-framed : framed Pid.slot_info (serialize_slot_info p []) ≡ true
  unfolding info_bytes
  serialize_slot_info-framed = rw serialize_slot_info-bytes (
      framed-packet_bytes Pid.slot_info (13 + length p.slots * 9) (content_bytes [])
        (omega (arith, h.fits)) (omega (arith, length-content_bytes [])))

  -- For a SlotInfo with at most 255 slots and a seed of 32 bits, Serialize on an empty buffer
  -- and then Deserialize returns the same packet and leaves the buffer empty.
  pub slot_info_round_trip : (serialize_slot_info p >>= λ _. deserialize_slot_info) [] ≡ done p []
  unfolding and_then
  slot_info_round_trip = rw serialize_slot_info-bytes deserialize_slot_info-bytes

pub record ValidSlotInfoJoin (p : SlotInfoJoin) : Type 0 where
  pub slot_info : ValidSlotInfo p.slot_info
  pub player_id : IsU8 p.player_id
  pub external_addr : ValidSockAddr p.external_addr

module _ (p : SlotInfoJoin) (h : ValidSlotInfoJoin p) where
  join_tail : Bytes
  join_tail = p.player_id ∷ encode_sock_addr p.external_addr

  join_body : Bytes
  join_body = content_bytes p.slot_info h.slot_info join_tail

  join_bytes : Bytes
  join_bytes =
      packet_bytes Pid.slot_info_join ((30 + length p.slot_info.slots * 9) % 2 ^ 16) join_body

  content-append :
      (rest : Bytes)
      → content_bytes p.slot_info h.slot_info [] ++ rest
        ≡ content_bytes p.slot_info h.slot_info rest
  unfolding content_bytes
  content-append rest = rw slot_bytes-append

  serialize_slot_info_join-bytes : serialize_slot_info_join p [] ≡ done tt join_bytes
  unfolding serialize_slot_info_join join_bytes join_body join_tail buffer_calls
  serialize_slot_info_join-bytes = rw (
    write_content p.slot_info h.slot_info,
    write_sock_addr_lem _ h.external_addr,
    append_assoc,
    append_assoc,
    content-append,
  )

  length-join_body : 30 + length p.slot_info.slots * 9 ≡ 4 + length join_body
  unfolding join_body join_tail
  length-join_body = omega (
    arith,
    length-content_bytes p.slot_info h.slot_info join_tail,
    length-encode_sock_addr h.external_addr,
  )

  deserialize_slot_info_join-bytes : deserialize_slot_info_join join_bytes ≡ done p []
  unfolding deserialize_slot_info_join join_bytes
  deserialize_slot_info_join-bytes =
      rw
        (read_packet_size-packet_bytes Pid.slot_info_join (30 + length p.slot_info.slots * 9)
          join_body (omega (arith, h.slot_info.fits)) length-join_body)
        (unfold join_body join_tail buffer_calls in
          ground (
            arith,
            read_content p.slot_info h.slot_info join_tail,
            append-nil (encode_sock_addr p.external_addr),
            read_sock_addr-encode [] h.external_addr,
          ))

  pub serialize_slot_info_join-framed :
      framed Pid.slot_info_join (serialize_slot_info_join p []) ≡ true
  unfolding join_bytes
  serialize_slot_info_join-framed = rw serialize_slot_info_join-bytes (
      framed-packet_bytes Pid.slot_info_join (30 + length p.slot_info.slots * 9) join_body
        (omega (arith, h.slot_info.fits)) length-join_body)

  -- For a SlotInfoJoin with at most 255 slots, a seed of 32 bits, a player id of eight bits and
  -- a valid address, Serialize on an empty buffer and then Deserialize returns the same packet
  -- and leaves the buffer empty.
  pub slot_info_join_round_trip :
      (serialize_slot_info_join p >>= λ _. deserialize_slot_info_join) [] ≡ done p []
  unfolding and_then
  slot_info_join_round_trip = rw serialize_slot_info_join-bytes deserialize_slot_info_join-bytes
