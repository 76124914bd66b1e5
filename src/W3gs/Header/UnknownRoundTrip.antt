-- ===== src/W3gs/Header/UnknownRoundTrip.antt =====
-- UnknownPacket.
use gowarcraft.Prelude.{◌+◌, ◌≡◌, length, [], arith, append-nil, IsU16}
use gowarcraft.Protocol.Go.{Bytes, ◌>>=◌, done, NoPanic, and_then, reject_if}
use gowarcraft.Protocol.Buffer.{write_uint8, write_uint16, write_blob}
use gowarcraft.Protocol.Buffer.RoundTrip.{read_blob-append}
use gowarcraft.W3gs.Header.{UnknownPacket, serialize_unknown, deserialize_unknown}
use gowarcraft.W3gs.Header.{header_calls}
use gowarcraft.W3gs.Header.RoundTrip.{read_packet_header-packet_bytes}

-- For an UnknownPacket of any id and a blob whose packet fits sixteen bits, Serialize on an
-- empty buffer and then Deserialize returns the same packet and leaves the buffer empty.
pub unknown_round_trip :
    (p : UnknownPacket)
    → IsU16 (4 + length p.blob)
    → (serialize_unknown p >>= λ _. deserialize_unknown) [] ≡ done p []
unfolding serialize_unknown deserialize_unknown write_uint8 write_uint16 write_blob and_then
    reject_if
unknown_round_trip p h = ground (
  arith,
  read_packet_header-packet_bytes p.id (4 + length p.blob) p.blob,
  read_blob-append p.blob [],
  append-nil p.blob,
)

-- Deserialize of an UnknownPacket does not panic, whatever bytes the buffer holds.
pub deserialize_unknown-NoPanic : (b : Bytes) → NoPanic (deserialize_unknown b)
unfolding deserialize_unknown header_calls
deserialize_unknown-NoPanic b = ground arith
