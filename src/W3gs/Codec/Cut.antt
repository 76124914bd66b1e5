-- ===== src/W3gs/Codec/Cut.antt =====
-- A packet that is cut off in its stream.
use gowarcraft.Prelude.{
  ℕ, zero, suc, ◌≡◌, ◌<◌, Bool, true, [], ◌∷◌, length, take, length-take_of_le, refl, arith, ap,
}
use gowarcraft.Protocol.Go.{Bytes, no_protocol_sig, done}
use gowarcraft.W3gs.Header.RoundTrip.{framed}
use gowarcraft.W3gs.Packets.{Packet, default_factory}
use gowarcraft.W3gs.Codec.{
  encode, ReadError, failed, eof, unexpected_eof, codec, short_read, body_error, read_size_from,
  read_raw, read,
}
use gowarcraft.W3gs.Codec.Framing.{Valid, pid_of}
use gowarcraft.W3gs.Codec.RoundTrip.{encode-decode}
use gowarcraft.W3gs.Codec.Streams.{framed-size, read_size_from-append}

-- How a read ends in a frame that is cut after k bytes.
abbrev pub cut_error : ℕ → ReadError
cut_error zero = eof
cut_error (suc zero) = codec no_protocol_sig
cut_error (suc (suc zero)) = codec no_protocol_sig
cut_error (suc (suc (suc zero))) = codec no_protocol_sig
cut_error (suc (suc (suc (suc k)))) = unexpected_eof

read_size_from-cut :
    (n : ℕ) (r : Bytes) → length r < n → read_size_from n r ≡ failed (short_read r) (length r) []
unfolding read_size_from
read_size_from-cut n r h = ground (arith, h)

body_error-short_read : (r : Bytes) → body_error (short_read r) ≡ unexpected_eof
body_error-short_read [] = refl
body_error-short_read (b ∷ r) = refl

read_raw-cut :
    (pid k : ℕ) (b : Bytes)
    → framed pid (done tt b) ≡ true
    → k < length b
    → read_raw (take k b) ≡ failed (cut_error k) k []
unfolding read_raw
read_raw-cut pid zero b h lt = unfold read_size_from in refl
read_raw-cut pid (suc zero) (sig ∷ i ∷ lo ∷ hi ∷ body) h lt = unfold read_size_from in refl
read_raw-cut pid (suc (suc zero)) (sig ∷ i ∷ lo ∷ hi ∷ body) h lt = unfold read_size_from in refl
read_raw-cut pid (suc (suc (suc zero))) (sig ∷ i ∷ lo ∷ hi ∷ body) h lt =
    unfold read_size_from in refl
read_raw-cut pid (suc (suc (suc (suc k)))) (sig ∷ i ∷ lo ∷ hi ∷ body) h lt =
    let (fits, size) = framed-size pid sig i lo hi body h in
    let some_left : length (take k body) ≡ k = length-take_of_le k body (omega arith) in
    let cut = read_size_from-cut (length body) (take k body) (omega (arith, some_left)) in
    rw
      (
        read_size_from-append (sig ∷ i ∷ lo ∷ hi ∷ []) (take k body),
        fits,
        size,
        cut,
        body_error-short_read (take k body),
        some_left,
      )
      (ap (λ n. failed unexpected_eof n []) (omega arith))
read_raw-cut pid k [] h lt = absurd (cc)
read_raw-cut pid k (sig ∷ []) h lt = absurd (cc)
read_raw-cut pid k (sig ∷ i ∷ []) h lt = absurd (cc)
read_raw-cut pid k (sig ∷ i ∷ lo ∷ []) h lt = absurd (cc)

-- If the bytes of a valid packet are cut after k of them, fewer than all, and the stream ends
-- there, Read returns io.EOF for no bytes, ErrNoProtocolSig for up to three, and
-- io.ErrUnexpectedEOF for four or more, and k as the number of bytes read.
pub read-cut :
    (crc32 : Bytes → ℕ) (decodes : ℕ → Bytes → Bool) (p : Packet) (b : Bytes) (k : ℕ)
    → Valid crc32 decodes p
    → encode crc32 p ≡ done b b
    → k < length b
    → read (default_factory crc32 decodes) (take k b) ≡ failed (cut_error k) k []
unfolding read
read-cut crc32 decodes p b k h e lt =
    let c = encode-decode crc32 decodes p h in
    let same : c.bytes ≡ b = cc in rw (read_raw-cut (pid_of p) k b (rw (← same) c.frame) lt) refl
