-- ===== src/Protocol/Buffer.antt =====
-- protocol/buffer.go: the methods of Buffer. A Buffer is the list of its bytes; a byte slice that
-- a method returns is a copy. A float32 is its IEEE 754 bit pattern.
pub mod RoundTrip
pub mod Address
pub mod Lengths
pub mod NoPanic
use gowarcraft.Prelude.{ℕ, zero, suc, ◌+◌, ◌*◌, ◌/◌, ◌%◌, ◌^◌, Bool, true, false, Option}
use gowarcraft.Prelude.{some, none, [], ◌∷◌, ◌++◌, ltb, leb, ◌==◌, if◌then◌else◌, ◌&&◌, not}
use gowarcraft.Prelude.{length, take, drop, set}
use gowarcraft.Protocol.Go.{
  Bytes, Go, Outcome, done, fail, panic, and_then, ◌>>=◌, ◌>>◌, return, throw,
}
use gowarcraft.Protocol.Go.{reject_if, invalid_ip4, invalid_sock_addr}
use gowarcraft.Protocol.Go.{no_c_string_terminator_found}

-- byte(v)
abbrev pub byte : ℕ → ℕ
byte v = v % 256

-- net.IP: `none` is nil.
abbrev pub Ip : Type 0
Ip = Option Bytes

pub record SockAddr : Type 0 where
  pub port : ℕ
  pub ip : Ip

abbrev pub conn_address_family : ℕ
conn_address_family = 2

-- math/bits
abbrev pub reverse_bytes16 : ℕ → ℕ
reverse_bytes16 v = byte v * 2 ^ 8 + byte (v / 2 ^ 8)

abbrev pub reverse_bytes32 : ℕ → ℕ
reverse_bytes32 v =
    byte v * 2 ^ 24 + byte (v / 2 ^ 8) * 2 ^ 16 + byte (v / 2 ^ 16) * 2 ^ 8 + byte (v / 2 ^ 24)

-- net.IP.To4: four bytes, or the last four of an IPv4-mapped IPv6 address.
abbrev pub to4_mapped : Bytes → Option Bytes
to4_mapped (zero ∷ zero ∷ zero ∷ zero ∷ zero ∷ zero ∷ zero ∷ zero ∷ zero ∷ zero ∷ f ∷ g ∷ v) =
    if f == 0xff && g == 0xff then some v else none
to4_mapped _ = none

abbrev pub to4 : Ip → Option Bytes
to4 none = none
to4 (some v) = if length v == 4 then some v else (if length v == 16 then to4_mapped v else none)

-- The consuming methods.
unfoldable pub skip : ℕ → Go (Unit {0})
skip n b = if leb n (length b) then done tt (drop n b) else panic

unfoldable pub read_blob : ℕ → Go Bytes
read_blob zero b = done [] b
read_blob (suc n) b =
    if leb (suc n) (length b) then done (take (suc n) b) (drop (suc n) b) else panic

unfoldable pub read_uint8 : Go ℕ
read_uint8 (b0 ∷ b) = done b0 b
read_uint8 _ = panic

-- The shifted bytes do not overlap, so `|` is `+`.
unfoldable pub read_uint16 : Go ℕ
read_uint16 (b0 ∷ b1 ∷ b) = done (b1 * 2 ^ 8 + b0) b
read_uint16 _ = panic

unfoldable pub read_uint32 : Go ℕ
read_uint32 (b0 ∷ b1 ∷ b2 ∷ b3 ∷ b) = done (b3 * 2 ^ 24 + b2 * 2 ^ 16 + b1 * 2 ^ 8 + b0) b
read_uint32 _ = panic

unfoldable pub read_uint64 : Go ℕ
read_uint64 (b0 ∷ b1 ∷ b2 ∷ b3 ∷ b4 ∷ b5 ∷ b6 ∷ b7 ∷ b) =
    done
      (b7 * 2 ^ 56
        + b6 * 2 ^ 48
        + b5 * 2 ^ 40
        + b4 * 2 ^ 32
        + b3 * 2 ^ 24
        + b2 * 2 ^ 16
        + b1 * 2 ^ 8
        + b0)
      b
read_uint64 _ = panic

unfoldable pub read_float32 : Go ℕ
read_float32 = read_uint32

unfoldable pub read_bool8 : Go Bool
read_bool8 = do v ← read_uint8; return (ltb 0 v)

unfoldable pub read_bool32 : Go Bool
read_bool32 = do v ← read_uint32; return (ltb 0 v)

abbrev pub ip_of : ℕ → Ip
ip_of v =
    if v == 0
    then none
    else some (byte v ∷ byte (v / 2 ^ 8) ∷ byte (v / 2 ^ 16) ∷ byte (v / 2 ^ 24) ∷ [])

unfoldable pub read_ip : Go Ip
read_ip = do ip ← read_uint32; return (ip_of ip)

-- The zero family: port and address must be zero.
abbrev read_no_addr : Go SockAddr
read_no_addr = do
  port ← read_uint16
  reject_if (not (port == 0)) invalid_sock_addr
  ip ← read_uint32
  reject_if (not (ip == 0)) invalid_sock_addr
  return (record { port = 0; ip = none })

abbrev read_inet_addr : Go SockAddr
read_inet_addr = do
  port ← read_uint16
  ip ← read_ip
  return (record { port = reverse_bytes16 port; ip = ip })

abbrev read_family : ℕ → Go SockAddr
read_family family =
    if family == 0
    then read_no_addr
    else (if family == conn_address_family then read_inet_addr else throw invalid_sock_addr)

unfoldable pub read_sock_addr : Go SockAddr
read_sock_addr = do
  family ← read_uint16
  res ← read_family family
  zero1 ← read_uint32
  reject_if (not (zero1 == 0)) invalid_sock_addr
  zero2 ← read_uint32
  reject_if (not (zero2 == 0)) invalid_sock_addr
  return res

-- bytes.IndexByte(b, 0), with the slices on both sides of the position.
abbrev pub prepend : ℕ → Option (Bytes × Bytes) → Option (Bytes × Bytes)
prepend x none = none
prepend x (some (s, r)) = some (x ∷ s, r)

unfoldable pub split_at_zero : Bytes → Option (Bytes × Bytes)
split_at_zero [] = none
split_at_zero (zero ∷ b) = some ([], b)
split_at_zero (suc x ∷ b) = prepend (suc x) (split_at_zero b)

abbrev c_string_of : Option (Bytes × Bytes) → Outcome Bytes
c_string_of none = fail no_c_string_terminator_found []
c_string_of (some (s, r)) = done s r

unfoldable pub read_c_string : Go Bytes
read_c_string b = c_string_of (split_at_zero b)

unfoldable pub read_led_string : Go ℕ
read_led_string = read_uint32

unfoldable pub read_bed_string : Go ℕ
read_bed_string = do v ← read_uint32; return (reverse_bytes32 v)

-- The appending methods.
unfoldable pub write_blob : Bytes → Go (Unit {0})
write_blob v b = done tt (b ++ v)

unfoldable pub write_uint8 : ℕ → Go (Unit {0})
write_uint8 v b = done tt (b ++ v ∷ [])

unfoldable pub write_uint16 : ℕ → Go (Unit {0})
write_uint16 v b = done tt (b ++ byte v ∷ byte (v / 2 ^ 8) ∷ [])

unfoldable pub write_uint32 : ℕ → Go (Unit {0})
write_uint32 v b =
    done tt (b ++ byte v ∷ byte (v / 2 ^ 8) ∷ byte (v / 2 ^ 16) ∷ byte (v / 2 ^ 24) ∷ [])

unfoldable pub write_uint64 : ℕ → Go (Unit {0})
write_uint64 v b = done tt (
    b
    ++ byte v
      ∷ byte (v / 2 ^ 8)
      ∷ byte (v / 2 ^ 16)
      ∷ byte (v / 2 ^ 24)
      ∷ byte (v / 2 ^ 32)
      ∷ byte (v / 2 ^ 40)
      ∷ byte (v / 2 ^ 48)
      ∷ byte (v / 2 ^ 56)
      ∷ [])

unfoldable pub write_float32 : ℕ → Go (Unit {0})
write_float32 = write_uint32

abbrev pub bit_of : Bool → ℕ
bit_of true = 1
bit_of false = 0

unfoldable pub write_bool8 : Bool → Go (Unit {0})
write_bool8 v = write_uint8 (bit_of v)

unfoldable pub write_bool32 : Bool → Go (Unit {0})
write_bool32 v = write_uint32 (bit_of v)

abbrev write_ip4 : Option Bytes → Ip → Go (Unit {0})
write_ip4 (some ip4) v = write_blob ip4
write_ip4 none none = write_uint32 0
write_ip4 none (some v) = throw invalid_ip4

unfoldable pub write_ip : Ip → Go (Unit {0})
write_ip v = write_ip4 (to4 v) v

abbrev write_family : ℕ → Ip → Go (Unit {0})
write_family port none = do write_uint32 0; write_uint32 0
write_family port (some ip) = do
  write_uint16 conn_address_family
  write_uint16 (reverse_bytes16 port)
  write_ip (some ip)

unfoldable pub write_sock_addr : SockAddr → Go (Unit {0})
write_sock_addr v = do write_family v.port v.ip; write_uint32 0; write_uint32 0

unfoldable pub write_c_string : Bytes → Go (Unit {0})
write_c_string v = do write_blob v; write_uint8 0

unfoldable pub write_led_string : ℕ → Go (Unit {0})
write_led_string v = write_uint32 v

unfoldable pub write_bed_string : ℕ → Go (Unit {0})
write_bed_string v = write_uint32 (reverse_bytes32 v)

-- The overwriting methods. `copy` stops at the end of the shorter slice.
abbrev pub copy : Bytes → Bytes → Bytes
copy dst [] = dst
copy [] (x ∷ v) = []
copy (d ∷ dst) (x ∷ v) = x ∷ copy dst v

unfoldable pub write_blob_at : ℕ → Bytes → Go (Unit {0})
write_blob_at p v b = if leb p (length b) then done tt (take p b ++ copy (drop p b) v) else panic

unfoldable pub write_uint8_at : ℕ → ℕ → Go (Unit {0})
write_uint8_at p v b = if ltb p (length b) then done tt (set b p v) else panic

-- The highest index is written first, so an index out of range panics before any write.
unfoldable pub write_uint16_at : ℕ → ℕ → Go (Unit {0})
write_uint16_at p v b =
    if ltb (p + 1) (length b)
    then done tt (set (set b (p + 1) (byte (v / 2 ^ 8))) p (byte v))
    else panic

unfoldable pub write_uint32_at : ℕ → ℕ → Go (Unit {0})
write_uint32_at p v b =
    if ltb (p + 3) (length b)
    then done tt (
        set
          (set (set (set b (p + 3) (byte (v / 2 ^ 24))) (p + 2) (byte (v / 2 ^ 16))) (p + 1)
            (byte (v / 2 ^ 8)))
          p (byte v))
    else panic

unfoldable pub write_bool8_at : ℕ → Bool → Go (Unit {0})
write_bool8_at p v = write_uint8_at p (bit_of v)

unfoldable pub write_bool32_at : ℕ → Bool → Go (Unit {0})
write_bool32_at p v = write_uint32_at p (bit_of v)

abbrev write_ip4_at : ℕ → Option Bytes → Ip → Go (Unit {0})
write_ip4_at p (some ip4) v = write_blob_at p ip4
write_ip4_at p none none = write_uint32_at p 0
write_ip4_at p none (some v) = throw invalid_ip4

unfoldable pub write_ip_at : ℕ → Ip → Go (Unit {0})
write_ip_at p v = write_ip4_at p (to4 v) v

abbrev write_family_at : ℕ → ℕ → Ip → Go (Unit {0})
write_family_at p port none = do write_uint32_at p 0; write_uint32_at (p + 4) 0
write_family_at p port (some ip) = do
  write_uint16_at p conn_address_family
  write_uint16_at (p + 2) (reverse_bytes16 port)
  write_ip_at (p + 4) (some ip)

unfoldable pub write_sock_addr_at : ℕ → SockAddr → Go (Unit {0})
write_sock_addr_at p v = do
  write_family_at p v.port v.ip
  write_uint32_at (p + 8) 0
  write_uint32_at (p + 12) 0

unfoldable pub write_c_string_at : ℕ → Bytes → Go (Unit {0})
write_c_string_at p v = do write_blob_at p v; write_uint8_at (p + length v) 0

unfoldable pub write_led_string_at : ℕ → ℕ → Go (Unit {0})
write_led_string_at p v = write_uint32_at p v

unfoldable pub write_bed_string_at : ℕ → ℕ → Go (Unit {0})
write_bed_string_at p v = write_uint32_at p (reverse_bytes32 v)

-- What a proof that computes with the methods opens.
unfoldable pub buffer_calls : Unit {0}
unfolding and_then reject_if skip read_blob read_uint8 read_uint16 read_uint32 read_uint64
    read_bool8 read_bool32 read_ip read_led_string read_bed_string write_blob write_uint8
    write_uint16 write_uint32 write_uint64 write_bool8 write_bool32 write_ip write_c_string
    write_led_string write_bed_string write_blob_at write_uint8_at write_uint16_at write_uint32_at
buffer_calls = tt
