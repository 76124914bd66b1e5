-- ===== src/Protocol/Buffer/Lengths.antt =====
-- How many bytes the consuming methods take.
use gowarcraft.Prelude.{ℕ, zero, suc, ◌+◌, ◌≤◌, ◌≡◌, ◌≢◌, [], ◌∷◌, some, length, arith}
use gowarcraft.Prelude.{length-drop, length-take_of_le}
use gowarcraft.Protocol.Go.{Bytes, done, panic}
use gowarcraft.Protocol.Buffer.{
  buffer_calls, split_at_zero, read_c_string, read_blob, skip, read_sock_addr,
}
use gowarcraft.Protocol.Buffer.{SockAddr}

pub split_at_zero-length :
    (b s r : Bytes) → split_at_zero b ≡ some (s, r) → length s + length r + 1 ≡ length b
unfolding split_at_zero
split_at_zero-length [] s r h = ground arith
split_at_zero-length (zero ∷ b) s r h = ground arith
split_at_zero-length (suc x ∷ b) s r h = grind (arith, split_at_zero-length b)

pub read_c_string-length :
    (b : Bytes) {s r : Bytes} → read_c_string b ≡ done s r → length s + length r + 1 ≡ length b
unfolding read_c_string
read_c_string-length b h = grind (arith, split_at_zero-length b)

pub read_c_string-ne-panic : (b : Bytes) → read_c_string b ≢ panic
unfolding read_c_string
read_c_string-ne-panic b = ground arith

pub read_blob-length :
    (n : ℕ) (b : Bytes) {s r : Bytes}
    → read_blob n b ≡ done s r
    → (length s ≡ n) × (length r + n ≡ length b)
unfolding read_blob
read_blob-length zero b h = ground arith
read_blob-length (suc n) b h =
    ground (arith, length-drop {0} (suc n) b, length-take_of_le {0} (suc n) b)

pub read_blob-ne-panic : (n : ℕ) (b : Bytes) → n ≤ length b → read_blob n b ≢ panic
unfolding read_blob
read_blob-ne-panic zero b h = ground arith
read_blob-ne-panic (suc n) b h = ground arith

pub skip-length : (n : ℕ) (b : Bytes) {r : Bytes} → skip n b ≡ done tt r → length r + n ≡ length b
unfolding skip
skip-length n b h = ground (arith, length-drop {0} n b)

pub read_sock_addr-length :
    (b : Bytes) {s : SockAddr} {r : Bytes} → read_sock_addr b ≡ done s r → length r + 16 ≡ length b
unfolding read_sock_addr buffer_calls
read_sock_addr-length b h = ground arith
