-- ===== src/W3gs/Codec.antt =====
-- protocol/w3gs/serialization.go: Encoder and Decoder. A reader is the bytes that it yields before
-- its end.
pub mod Framing
pub mod RoundTrip
pub mod Streams
pub mod Cut
mod Examples
use gowarcraft.Prelude.{
  ℕ, zero, suc, ◌+◌, ◌-◌, ◌*◌, ◌==◌, ◌||◌, not, Bool, false, ltb, length, take, drop, if◌then◌else◌,
  List, [], ◌∷◌, ◌++◌,
}
use gowarcraft.Protocol.Go.{
  Bytes, Go, Error, Outcome, done, fail, panic, no_protocol_sig, invalid_packet_size,
}
use gowarcraft.W3gs.Header.{protocol_sig}
use gowarcraft.W3gs.Packets.{Packet, serialize, MapFactory, new_packet}

-- Encoder.Serialize
abbrev pub bytes_of : Outcome (Unit {0}) → Outcome Bytes
bytes_of (done _ b) = done b b
bytes_of (fail e b) = fail e b
bytes_of panic = panic

unfoldable pub encode : (Bytes → ℕ) → Packet → Outcome Bytes
encode crc32 p = bytes_of (serialize crc32 p [])

-- Encoder.Write, to a writer that takes all bytes.
abbrev pub write_to : Bytes → Outcome Bytes → Outcome (Unit {0})
write_to w (done b _) = done tt (w ++ b)
write_to w (fail e _) = fail e w
write_to w panic = panic

unfoldable pub write : (Bytes → ℕ) → Packet → Go (Unit {0})
write crc32 p w = write_to w (encode crc32 p)

-- Decoder.Deserialize, with the bytes that it leaves.
abbrev pub decode_known : MapFactory → Go Packet
decode_known f [] = fail no_protocol_sig []
decode_known f (sig ∷ []) = fail no_protocol_sig (sig ∷ [])
decode_known f (sig ∷ pid ∷ b) = new_packet f pid (sig ∷ pid ∷ b)

abbrev pub has_sig : Bytes → Bool
has_sig [] = false
has_sig (sig ∷ b) = sig == protocol_sig

unfoldable pub decode : MapFactory → Go Packet
decode f b =
    if ltb (length b) 4 || not (has_sig b) then fail no_protocol_sig b else decode_known f b

-- What a reader's method returns: a value or an error, how many bytes it says it has read, and what
-- the reader has left.
pub data ReadError : Type 0 where
  eof : ReadError
  unexpected_eof : ReadError
  codec : Error → ReadError

pub data Read {ℓ} (A : Type ℓ) : Type ℓ where
  got : A → ℕ → Bytes → Read A
  failed : ReadError → ℕ → Bytes → Read A
  panicked : Read A

-- Buffer.ReadSizeFrom, which is io.ReadFull.
abbrev pub short_read : Bytes → ReadError
short_read [] = eof
short_read (b ∷ bs) = unexpected_eof

unfoldable pub read_size_from : ℕ → Bytes → Read Bytes
read_size_from n r =
    if ltb (length r) n then failed (short_read r) (length r) [] else got (take n r) n (drop n r)

-- The errors of the two reads of ReadRaw.
abbrev pub header_error : ReadError → ReadError
header_error unexpected_eof = codec no_protocol_sig
header_error e = e

abbrev pub body_error : ReadError → ReadError
body_error eof = unexpected_eof
body_error e = e

abbrev pub with_body : Bytes → Read Bytes → Read Bytes
with_body header (got b n r) = got (header ++ b) (n + 4) r
with_body header (failed e n r) = failed (body_error e) (n + 4) r
with_body header panicked = panicked

abbrev pub read_body : Bytes → Bytes → Read Bytes
read_body (sig ∷ pid ∷ lo ∷ hi ∷ []) r =
    let size : ℕ = lo + hi * 256 in
    if not (sig == protocol_sig) || ltb size 4
    then failed (codec no_protocol_sig) 4 r
    else with_body (sig ∷ pid ∷ lo ∷ hi ∷ []) (read_size_from (size - 4) r)
read_body header r = panicked

abbrev pub after_header : Read Bytes → Read Bytes
after_header (got header n r) = read_body header r
after_header (failed e n r) = failed (header_error e) n r
after_header panicked = panicked

unfoldable pub read_raw : Bytes → Read Bytes
read_raw r = after_header (read_size_from 4 r)

-- Decoder.Read
abbrev pub decoded : ℕ → ℕ → Bytes → Outcome Packet → Read Packet
decoded n size r (done p left) =
    if size - length left == n then got p n r else failed (codec invalid_packet_size) n r
decoded n size r (fail e left) = failed (codec e) n r
decoded n size r panic = panicked

abbrev pub decode_raw : MapFactory → Read Bytes → Read Packet
decode_raw f (got b n r) = decoded n (length b) r (decode f b)
decode_raw f (failed e n r) = failed e n r
decode_raw f panicked = panicked

unfoldable pub read : MapFactory → Bytes → Read Packet
read f r = decode_raw f (read_raw r)
