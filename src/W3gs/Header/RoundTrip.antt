-- ===== src/W3gs/Header/RoundTrip.antt =====
-- Reading a header that a Serialize method wrote.
use gowarcraft.Prelude.{
  ℕ, ◌+◌, ◌%◌, ◌^◌, ◌*◌, ◌==◌, ◌&&◌, Bool, true, false, ◌≡◌, some, ◌∷◌, length, IsU16, arith,
}
use gowarcraft.Protocol.Go.{Bytes, Outcome, done}
use gowarcraft.Protocol.Buffer.{buffer_calls, write_uint8_at}
use gowarcraft.Protocol.Buffer.RoundTrip.{le16}
use gowarcraft.W3gs.Header.{protocol_sig, read_packet_header, read_packet_size, header_calls}

-- A packet: its identifier, its size and what stands behind the header.
abbrev pub packet_bytes : ℕ → ℕ → Bytes → Bytes
packet_bytes pid size body = protocol_sig ∷ pid ∷ le16 size body

-- A size that is written as uint16(n), where n is the number of bytes and does not wrap.
module _ (pid n : ℕ) (body : Bytes) (fits : IsU16 n) (exact : n ≡ 4 + length body) where
  pub read_packet_header-packet_bytes :
      read_packet_header (packet_bytes pid (n % 2 ^ 16) body) ≡ done (pid, some n) body
  unfolding header_calls
  read_packet_header-packet_bytes = ground arith

  pub read_packet_size-packet_bytes :
      read_packet_size (packet_bytes pid (n % 2 ^ 16) body) ≡ done (some n) body
  unfolding header_calls
  read_packet_size-packet_bytes = ground arith

-- The packets that embed another one overwrite its identifier.
pub write_uint8_at-packet_bytes :
    (pid pid' size : ℕ) (body : Bytes)
    → write_uint8_at 1 pid' (packet_bytes pid size body) ≡ done tt (packet_bytes pid' size body)
unfolding buffer_calls
write_uint8_at-packet_bytes pid pid' size body = ground arith

-- A call that has written a packet with an identifier, whose header tells its size.
abbrev pub framed : ℕ → Outcome (Unit {0}) → Bool
framed pid (done _ (sig ∷ i ∷ lo ∷ hi ∷ body)) =
    sig == protocol_sig && i == pid && lo + hi * 256 == 4 + length body
framed pid o = false

pub framed-packet_bytes :
    (pid n : ℕ) (body : Bytes)
    → IsU16 n
    → n ≡ 4 + length body
    → framed pid (done tt (packet_bytes pid (n % 2 ^ 16) body)) ≡ true
framed-packet_bytes pid n body fits exact = ground (arith, fits, exact)
