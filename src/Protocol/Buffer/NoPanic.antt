-- ===== src/Protocol/Buffer/NoPanic.antt =====
-- Rules that follow a method through its calls: it does not panic if each read finds enough bytes.
-- A rule gives what comes after the call the length of the bytes that are left.
use gowarcraft.Prelude.{
  ℕ, ◌+◌, ◌≤◌, ◌≡◌, ◌≢◌, Bool, true, false, not, ltb, ◌==◌, if◌then◌else◌, length, arith,
}
use gowarcraft.Protocol.Go.{
  Bytes, Go, Error, Outcome, done, panic, ◌>>=◌, ◌>>◌, reject_if, and_then,
}
use gowarcraft.Protocol.Go.{fail, NoPanic, get_bytes}
use gowarcraft.Protocol.Buffer.{
  SockAddr, read_uint8, read_uint16, read_uint32, read_bool8, buffer_calls,
}
use gowarcraft.Protocol.Buffer.{read_c_string, read_blob, skip, read_sock_addr}
use gowarcraft.Protocol.Buffer.Address.{read_sock_addr-ne-panic}
use gowarcraft.Protocol.Buffer.Lengths.{read_c_string-length, read_c_string-ne-panic, skip-length}
use gowarcraft.Protocol.Buffer.Lengths.{read_sock_addr-length, read_blob-length, read_blob-ne-panic}

pub and_then-NoPanic {ℓ κ} :
    {A : Type ℓ} {B : Type κ} (o : Outcome A) (f : A → Go B)
    → o ≢ panic
    → ((a : A) (r : Bytes) → o ≡ done a r → NoPanic (f a r))
    → NoPanic (and_then o f)
unfolding and_then
and_then-NoPanic (done a r) f h k = k a r (λ i. done a r)
and_then-NoPanic (fail x r) f h k = record { no_panic = ground arith }
and_then-NoPanic panic f h k = absurd (h (λ i. panic))

module _ {ℓ} {B : Type ℓ} where
  pub rejected : (k : Go B) (x : Error) (b : Bytes) → NoPanic ((reject_if true x >> k) b)
  unfolding and_then reject_if
  rejected k x b = record { no_panic = ground arith }

  pub returned : (a : B) (b : Bytes) → NoPanic (done a b)
  returned a b = record { no_panic = ground arith }

  pub after_reject :
      (k : Go B) (c : Bool) (x : Error) (b : Bytes)
      → (c ≡ false → NoPanic (k b))
      → NoPanic ((reject_if c x >> k) b)
  unfolding and_then reject_if
  after_reject k true x b h = record { no_panic = ground arith }
  after_reject k false x b h = h (λ i. false)

  -- The two tests that the packets make of a size, as orders.
  pub after_lt :
      (k : Go B) (n m : ℕ) (x : Error) (b : Bytes)
      → (m ≤ n → NoPanic (k b))
      → NoPanic ((reject_if (ltb n m) x >> k) b)
  after_lt k n m x b h = after_reject k (ltb n m) x b (λ c. h (ground arith))

  pub after_ne :
      (k : Go B) (n m : ℕ) (x : Error) (b : Bytes)
      → (n ≡ m → NoPanic (k b))
      → NoPanic ((reject_if (not (n == m)) x >> k) b)
  after_ne k n m x b h = after_reject k (not (n == m)) x b (λ c. h (ground arith))

  pub after_bytes : (f : Bytes → Go B) (b : Bytes) → NoPanic (f b b) → NoPanic ((get_bytes >>= f) b)
  unfolding and_then
  after_bytes f b h = h

  -- A method called inside another one.
  pub after_call {κ} :
      {A : Type κ} (m : Go A) (f : A → Go B) (b : Bytes)
      → NoPanic (m b)
      → ((a : A) (r : Bytes) → m b ≡ done a r → NoPanic (f a r))
      → NoPanic ((m >>= f) b)
  after_call m f b h k = and_then-NoPanic (m b) f h.no_panic k

  pub after_if :
      (m k : Go B) (c : Bool) (b : Bytes)
      → (c ≡ true → NoPanic (m b))
      → (c ≡ false → NoPanic (k b))
      → NoPanic ((if c then m else k) b)
  after_if m k true b h h' = h (λ i. true)
  after_if m k false b h h' = h' (λ i. false)

  pub after_uint8 :
      {f : ℕ → Go B} (b : Bytes)
      → 1 ≤ length b
      → ((v : ℕ) (r : Bytes) → length r + 1 ≡ length b → NoPanic (f v r))
      → NoPanic ((read_uint8 >>= f) b)
  after_uint8 {f} b h k =
      and_then-NoPanic _ f (unfold buffer_calls in ground arith)
        λ v r e. k v r (unfold buffer_calls in ground arith)

  pub after_bool8 :
      {f : Bool → Go B} (b : Bytes)
      → 1 ≤ length b
      → ((v : Bool) (r : Bytes) → length r + 1 ≡ length b → NoPanic (f v r))
      → NoPanic ((read_bool8 >>= f) b)
  after_bool8 {f} b h k =
      and_then-NoPanic _ f (unfold buffer_calls in ground arith)
        λ v r e. k v r (unfold buffer_calls in ground arith)

  pub after_uint16 :
      {f : ℕ → Go B} (b : Bytes)
      → 2 ≤ length b
      → ((v : ℕ) (r : Bytes) → length r + 2 ≡ length b → NoPanic (f v r))
      → NoPanic ((read_uint16 >>= f) b)
  after_uint16 {f} b h k =
      and_then-NoPanic _ f (unfold buffer_calls in ground arith)
        λ v r e. k v r (unfold buffer_calls in ground arith)

  pub after_uint32 :
      {f : ℕ → Go B} (b : Bytes)
      → 4 ≤ length b
      → ((v : ℕ) (r : Bytes) → length r + 4 ≡ length b → NoPanic (f v r))
      → NoPanic ((read_uint32 >>= f) b)
  after_uint32 {f} b h k =
      and_then-NoPanic _ f (unfold buffer_calls in ground arith)
        λ v r e. k v r (unfold buffer_calls in ground arith)

  pub after_c_string :
      {f : Bytes → Go B} (b : Bytes)
      → ((s r : Bytes) → length s + length r + 1 ≡ length b → NoPanic (f s r))
      → NoPanic ((read_c_string >>= f) b)
  after_c_string {f} b k =
      and_then-NoPanic _ f (read_c_string-ne-panic b) λ s r e. k s r (read_c_string-length b e)

  pub after_skip :
      (f : Unit {0} → Go B) (n : ℕ) (b : Bytes)
      → n ≤ length b
      → ((r : Bytes) → length r + n ≡ length b → NoPanic (f tt r))
      → NoPanic ((skip n >>= f) b)
  after_skip f n b h k =
      and_then-NoPanic _ f (unfold skip in ground arith) λ u r e. k r (skip-length n b e)

  pub after_blob :
      {f : Bytes → Go B} (n : ℕ) (b : Bytes)
      → n ≤ length b
      → ((s r : Bytes) → length s ≡ n → length r + n ≡ length b → NoPanic (f s r))
      → NoPanic ((read_blob n >>= f) b)
  after_blob {f} n b h k =
      and_then-NoPanic _ f (read_blob-ne-panic n b h)
        λ s r e. k s r (read_blob-length n b e).0 (read_blob-length n b e).1

  pub after_sock_addr :
      {f : SockAddr → Go B} (b : Bytes)
      → 16 ≤ length b
      → ((s : SockAddr) (r : Bytes) → length r + 16 ≡ length b → NoPanic (f s r))
      → NoPanic ((read_sock_addr >>= f) b)
  after_sock_addr {f} b h k =
      and_then-NoPanic _ f (read_sock_addr-ne-panic b h) λ s r e. k s r (read_sock_addr-length b e)
