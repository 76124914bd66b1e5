-- ===== src/W3gs/Header/NoPanic.antt =====
-- Rules that follow a Deserialize method through the header of its packet.
use gowarcraft.Prelude.{ℕ, ◌+◌, ◌≤◌, ◌≡◌, ◌≢◌, some, none, length, arith, Option}
use gowarcraft.Protocol.Go.{Bytes, Go, done, panic, NoPanic, ◌>>=◌}
use gowarcraft.Protocol.Buffer.NoPanic.{and_then-NoPanic}
use gowarcraft.W3gs.Header.{PacketSize, read_packet_header, read_packet_size, header_calls}

header_fits :
    (b : Bytes) {pid n : ℕ} {r : Bytes}
    → read_packet_header b ≡ done (pid, some n) r
    → n ≤ length r + 4
unfolding header_calls
header_fits b e = ground arith

read_packet_header-ne-panic : (b : Bytes) → read_packet_header b ≢ panic
unfolding header_calls
read_packet_header-ne-panic b = ground arith

module _ {ℓ} {B : Type ℓ} where
  pub after_header :
      (f : ℕ × PacketSize → Go B) (b : Bytes)
      → ((pid : ℕ) (r : Bytes) → NoPanic (f (pid, none) r))
      → ((pid n : ℕ) (r : Bytes) → n ≤ length r + 4 → NoPanic (f (pid, some n) r))
      → NoPanic ((read_packet_header >>= f) b)
  after_header f b none_case some_case =
      and_then-NoPanic _ f (read_packet_header-ne-panic b) (λ p r e. by_size p.0 p.1 r e)
    where
      by_size :
          (pid : ℕ) (size : Option ℕ) (r : Bytes)
          → read_packet_header b ≡ done (pid, size) r
          → NoPanic (f (pid, size) r)
      by_size pid none r e = none_case pid r
      by_size pid (some n) r e = some_case pid n r (header_fits b e)

  pub after_size :
      (f : PacketSize → Go B) (b : Bytes)
      → ((r : Bytes) → NoPanic (f none r))
      → ((n : ℕ) (r : Bytes) → n ≤ length r + 4 → NoPanic (f (some n) r))
      → NoPanic ((read_packet_size >>= f) b)
  after_size f b none_case some_case =
      and_then-NoPanic _ f (read_packet_size-ne-panic) (λ n r e. by_size n r e)
    where
      read_packet_size-ne-panic : read_packet_size b ≢ panic
      read_packet_size-ne-panic = unfold header_calls in ground arith

      by_size :
          (size : Option ℕ) (r : Bytes) → read_packet_size b ≡ done size r → NoPanic (f size r)
      by_size none r e = none_case r
      by_size (some n) r e = some_case n r (unfold header_calls in ground arith)
