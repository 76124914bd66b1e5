-- ===== src/W3gs/Header.antt =====
-- protocol/w3gs: the packet header, the packet identifiers and packets that are not known.
pub mod RoundTrip
pub mod NoPanic
pub mod UnknownRoundTrip
use gowarcraft.Prelude.{
  ℕ, ◌+◌, ◌-◌, ◌%◌, ◌^◌, Bool, true, false, Option, some, none, ltb, ◌==◌, not,
}
use gowarcraft.Prelude.{if◌then◌else◌, length}
use gowarcraft.Protocol.Go.{Bytes, Go, ◌>>=◌, ◌>>◌, return, reject_if, get_bytes}
use gowarcraft.Protocol.Go.{Outcome, done, fail, panic, invalid_packet_size}
use gowarcraft.Protocol.Buffer.{skip, read_uint8, read_uint16, read_blob, buffer_calls}
use gowarcraft.Protocol.Buffer.{write_uint8, write_uint16, write_blob}

abbrev pub protocol_sig : ℕ
protocol_sig = 0xF7

-- The size that a header announces; `none` is the -1 of a header that does not fit its buffer.
abbrev pub PacketSize : Type 0
PacketSize = Option ℕ

abbrev pub size_eq : PacketSize → ℕ → Bool
size_eq none n = false
size_eq (some m) n = m == n

abbrev pub size_ne : PacketSize → ℕ → Bool
size_ne size n = not (size_eq size n)

abbrev pub size_lt : PacketSize → ℕ → Bool
size_lt none n = true
size_lt (some m) n = ltb m n

-- The number that a size stands for, read where it is known not to be -1.
abbrev pub int_of : PacketSize → ℕ
int_of none = 0
int_of (some m) = m

abbrev read_sized_header : ℕ → Go (ℕ × PacketSize)
read_sized_header bsize = do
  skip 1
  pid ← read_uint8
  psize ← read_uint16
  return (if ltb bsize psize then (pid, none) else (pid, some psize))

unfoldable pub read_packet_header : Go (ℕ × PacketSize)
read_packet_header b = if ltb (length b) 4 then done (0, none) b else read_sized_header (length b) b

unfoldable pub read_packet_size : Go PacketSize
read_packet_size = do (_, psize) ← read_packet_header; return psize

pub record UnknownPacket : Type 0 where
  pub id : ℕ
  pub blob : Bytes

unfoldable pub serialize_unknown : UnknownPacket → Go (Unit {0})
serialize_unknown pkt = do
  write_uint8 protocol_sig
  write_uint8 pkt.id
  write_uint16 ((4 + length pkt.blob) % 2 ^ 16)
  write_blob pkt.blob

unfoldable pub deserialize_unknown : Go UnknownPacket
deserialize_unknown = do
  (pid, size) ← read_packet_header
  reject_if (size_lt size 4) invalid_packet_size
  blob ← read_blob (int_of size - 4)
  return (record { id = pid; blob = blob })

-- What a proof that computes with the header and the methods of a Buffer opens.
unfoldable pub header_calls : Unit {0}
unfolding buffer_calls read_packet_header read_packet_size
header_calls = tt
