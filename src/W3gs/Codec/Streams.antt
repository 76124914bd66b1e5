-- ===== src/W3gs/Codec/Streams.antt =====
-- Packets that are written one after another to a stream, and read from it.
use gowarcraft.Prelude.{
  ℕ, zero, suc, ◌+◌, ◌-◌, ◌*◌, ◌==◌, ◌≡◌, ◌||◌, not, Bool, true, false, ltb, Option, none, some,
  List, [], ◌∷◌, ◌++◌, length, All, length-append, take-length_append, drop-length_append,
  append_assoc, append-nil, refl, arith, ap, sym, ◌∙◌,
}
use gowarcraft.Protocol.Go.{Bytes, Go, Outcome, done, ◌>>◌, return, and_then}
use gowarcraft.W3gs.Header.{protocol_sig}
use gowarcraft.W3gs.Header.RoundTrip.{framed}
use gowarcraft.W3gs.Packets.{Packet, MapFactory, default_factory}
use gowarcraft.W3gs.Codec.{
  encode, write, write_to, Read, ReadError, got, failed, panicked, eof, read_size_from, read_raw,
  decoded, read,
}
use gowarcraft.W3gs.Codec.Framing.{Valid, pid_of}
use gowarcraft.W3gs.Codec.RoundTrip.{IsCoded, encode-decode}

-- As many bytes as are asked for, and more.
pub read_size_from-append : (b r : Bytes) → read_size_from (length b) (b ++ r) ≡ got b (length b) r
unfolding read_size_from
read_size_from-append b r = rw (enough, take-length_append b r, drop-length_append b r) refl
  where
    enough : ltb (length (b ++ r)) (length b) ≡ false
    enough = ground (arith, length-append b r)

pub framed-size :
    (pid sig i lo hi : ℕ) (body : Bytes)
    → framed pid (done tt (sig ∷ i ∷ lo ∷ hi ∷ body)) ≡ true
    → ((not (sig == protocol_sig) || ltb (lo + hi * 256) 4) ≡ false)
      × (lo + hi * 256 - 4 ≡ length body)
framed-size pid sig i lo hi body h = (ground (arith, h), ground (arith, h))

-- A frame is read whole, and what follows it stays.
read_raw-framed :
    (pid : ℕ) (b r : Bytes) → framed pid (done tt b) ≡ true → read_raw (b ++ r) ≡ got b (length b) r
unfolding read_raw
read_raw-framed pid (sig ∷ i ∷ lo ∷ hi ∷ body) r h =
    let (fits, size) = framed-size pid sig i lo hi body h in
    rw
      (
        read_size_from-append (sig ∷ i ∷ lo ∷ hi ∷ []) (body ++ r),
        fits,
        size,
        read_size_from-append body r,
      )
      (ap (λ n. got (sig ∷ i ∷ lo ∷ hi ∷ body) n r) (omega arith))
read_raw-framed pid [] r h = absurd (cc)
read_raw-framed pid (sig ∷ []) r h = absurd (cc)
read_raw-framed pid (sig ∷ i ∷ []) r h = absurd (cc)
read_raw-framed pid (sig ∷ i ∷ lo ∷ []) r h = absurd (cc)

pub read-coded :
    (f : MapFactory) (pid : ℕ) (p : Packet) (o : Outcome Bytes) (r : Bytes)
    → (c : IsCoded f pid p o) → read f (c.bytes ++ r) ≡ got p (length c.bytes) r
unfolding read
read-coded f pid p o r c =
    rw (read_raw-framed pid c.bytes r c.frame, c.back) (same (length c.bytes))
  where
    same : (n : ℕ) → decoded n n r (done p []) ≡ got p n r
    same n = ground arith

module _ (crc32 : Bytes → ℕ) (decodes : ℕ → Bytes → Bool) where
  unfoldable pub write_all : List Packet → Go (Unit {0})
  write_all [] = return tt
  write_all (p ∷ ps) = write crc32 p >> write_all ps

  abbrev pub before : Packet → Option (List Packet × ReadError) → Option (List Packet × ReadError)
  before p none = none
  before p (some (ps, e)) = some (p ∷ ps, e)

  -- Read until there is an error: the packets, and the error.
  abbrev pub go_on :
      (Bytes → Option (List Packet × ReadError)) → Read Packet → Option (List Packet × ReadError)
  go_on rest (got p n r) = before p (rest r)
  go_on rest (failed e n r) = some ([], e)
  go_on rest panicked = none

  unfoldable pub read_all : ℕ → Bytes → Option (List Packet × ReadError)
  read_all zero r = none
  read_all (suc fuel) r = go_on (read_all fuel) (read (default_factory crc32 decodes) r)

  -- What is written to a stream behind what it has, and read back.
  pub record IsRelayed (ps : List Packet) : Type 0 where
    pub stream : Bytes
    pub written : (w : Bytes) → write_all ps w ≡ done tt (w ++ stream)
    pub back : read_all (suc (length ps)) stream ≡ some (ps, eof)

  write-coded :
      (p : Packet) (w : Bytes)
      (c : IsCoded (default_factory crc32 decodes) (pid_of p) p (encode crc32 p))
      → write crc32 p w ≡ done tt (w ++ c.bytes)
  unfolding write
  write-coded p w c = ap (write_to w) c.encoded

  relayed : (ps : List Packet) → All (Valid crc32 decodes) ps → IsRelayed ps
  unfolding write_all read_all and_then
  relayed [] h = record {
    stream = [];
    written = λ w. ap (λ (b : Bytes). done tt b) (sym (append-nil w));
    back = unfold read read_raw read_size_from in refl;
  }
  relayed (p ∷ ps) (h, hs) =
      let c = encode-decode crc32 decodes p h in
      let rest = relayed ps hs in
      record {
        stream = c.bytes ++ rest.stream;
        written = λ w.
            rw (write-coded p w c, rest.written (w ++ c.bytes))
              (ap (λ (b : Bytes). done tt b) (append_assoc w c.bytes rest.stream));
        back =
            ap (go_on (read_all (suc (length ps))))
              (read-coded _ (pid_of p) p (encode crc32 p) rest.stream c)
            ∙ ap (before p) rest.back;
      }

  -- Valid packets, of any of the kinds of the default factory or unknown to it, that are written
  -- one after another to an empty stream by Write of an Encoder are read back by Read of a
  -- Decoder with the default factory, the same packets in the same order, and then comes the end
  -- of the stream. A packet is valid if its fields fit and are ones that the format can express
  -- (addresses of four bytes, and zero in the fields that a packet of its type does not send),
  -- and its size fits sixteen bits; an unknown one if its identifier is not in the factory, and
  -- the content of a PlayerExtra if it is empty or the protobuf library decodes it.
  pub read_all-write_all :
      (ps : List Packet)
      → All (Valid crc32 decodes) ps
      → (stream : Bytes) × (write_all ps [] ≡ done tt stream)
        × (read_all (suc (length ps)) stream ≡ some (ps, eof))
  read_all-write_all ps h = let r = relayed ps h in (r.stream, r.written [], r.back)
