-- ===== src/Protocol/Buffer/Address.antt =====
-- Socket addresses: the sixteen bytes of a SockAddr.
use gowarcraft.Prelude.{
  ℕ, ◌+◌, ◌/◌, ◌^◌, ◌≤◌, ◌<◌, ◌≡◌, ◌≢◌, [], ◌∷◌, ◌++◌, none, some, length, arith,
}
use gowarcraft.Prelude.{IsU8, IsU16, append_assoc, refl, Option}
use gowarcraft.Prelude.{append-nil, sym}
use gowarcraft.Protocol.Go.{Bytes, done, panic, ◌>>=◌, and_then}
use gowarcraft.Protocol.Buffer.{buffer_calls, SockAddr, byte, write_sock_addr, read_sock_addr}

-- The addresses that survive a round trip: nil with port 0, and an IPv4 address other than 0.0.0.0
-- in its four-byte form.
pub data ValidSockAddr : SockAddr → Type 0 where
  no_addr : ValidSockAddr (record { port = 0; ip = none })
  inet_addr :
      (port a b c d : ℕ)
      → IsU16 port
      → IsU8 a
      → IsU8 b
      → IsU8 c
      → IsU8 d
      → 0 < a + b + c + d
      → ValidSockAddr (record { port = port; ip = some (a ∷ b ∷ c ∷ d ∷ []) })

pub zeros4 : Bytes → Bytes
zeros4 rest = 0 ∷ 0 ∷ 0 ∷ 0 ∷ rest

-- The format: family, port in network order, address, eight zero bytes.
pub encode_sock_addr : SockAddr → Bytes
unfolding zeros4
encode_sock_addr s = encode s.ip
  where
    encode : Option Bytes → Bytes
    encode none = zeros4 (zeros4 (zeros4 (zeros4 [])))
    encode (some v) = 2 ∷ 0 ∷ byte (s.port / 2 ^ 8) ∷ byte s.port ∷ (v ++ zeros4 (zeros4 []))

pub length-encode_sock_addr : {s : SockAddr} → ValidSockAddr s → length (encode_sock_addr s) ≡ 16
unfolding encode_sock_addr
length-encode_sock_addr no_addr = refl
length-encode_sock_addr (inet_addr port a b c d hp ha hb hc hd nz) = refl

pub write_sock_addr_lem :
    {s : SockAddr} (b : Bytes)
    → ValidSockAddr s
    → write_sock_addr s b ≡ done tt (b ++ encode_sock_addr s)
unfolding encode_sock_addr write_sock_addr buffer_calls
write_sock_addr_lem buf no_addr = simp append_assoc
write_sock_addr_lem buf (inet_addr port a b c d hp ha hb hc hd nz) =
    simp append_assoc (ground arith)

pub read_sock_addr-encode :
    {s : SockAddr} (rest : Bytes)
    → ValidSockAddr s
    → read_sock_addr (encode_sock_addr s ++ rest) ≡ done s rest
unfolding encode_sock_addr read_sock_addr buffer_calls
read_sock_addr-encode rest no_addr = refl
read_sock_addr-encode rest (inet_addr port a b c d hp ha hb hc hd nz) = ground arith

-- For a SockAddr that is nil with port 0, or an IPv4 address of four bytes other than 0.0.0.0
-- with a port of sixteen bits, WriteSockAddr on an empty buffer and then ReadSockAddr returns
-- the same address and leaves the buffer empty.
pub sock_addr_round_trip :
    (s : SockAddr) → ValidSockAddr s → (write_sock_addr s >>= λ _. read_sock_addr) [] ≡ done s []
unfolding and_then
sock_addr_round_trip s h =
    rw (write_sock_addr_lem [] h, sym (append-nil (encode_sock_addr s)))
      (read_sock_addr-encode [] h)

-- Sixteen bytes are enough for any answer but a panic.
pub read_sock_addr-ne-panic : (b : Bytes) → 16 ≤ length b → read_sock_addr b ≢ panic
unfolding read_sock_addr buffer_calls
read_sock_addr-ne-panic b h = ground arith
