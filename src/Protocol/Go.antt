-- ===== src/Protocol/Go.antt =====
-- Calls of Go code that work on a protocol.Buffer, as a state monad with errors and panics.
use gowarcraft.Prelude.{ℕ, ◌<◌, ◌≢◌, Bool, true, false, List}

-- A byte slice: each element is below 256.
abbrev pub Bytes : Type 0
Bytes = List ℕ

abbrev pub IsByte : ℕ → Type 0
IsByte b = b < 256

-- The error values of the packages.
pub data Error : Type 0 where
  invalid_ip4 : Error
  invalid_sock_addr : Error
  no_c_string_terminator_found : Error
  invalid_d_string : Error
  no_protocol_sig : Error
  no_factory : Error
  invalid_packet_size : Error
  invalid_checksum : Error
  unexpected_const : Error
  short_buffer : Error
  not_decoded : Error

-- How a call ends: it returns, it returns an error, or it panics. The first two leave a buffer.
pub data Outcome {ℓ} (A : Type ℓ) : Type ℓ where
  done : A → Bytes → Outcome A
  fail : Error → Bytes → Outcome A
  panic : Outcome A

-- A method on a Buffer: what it does to the bytes that the buffer holds.
abbrev pub Go {ℓ} : Type ℓ → Type ℓ
Go A = Bytes → Outcome A

-- Shut, so that a proof can follow a method call by call.
unfoldable pub and_then {ℓ κ} : {A : Type ℓ} {B : Type κ} → Outcome A → (A → Go B) → Outcome B
and_then (done a b) f = f a b
and_then (fail e b) f = fail e b
and_then panic f = panic

-- A call that returns, with a value or with an error.
pub record NoPanic {ℓ} {A : Type ℓ} (o : Outcome A) : Type ℓ where
  pub no_panic : o ≢ panic

infixl 5 ◌>>=◌ ◌>>◌
abbrev pub ◌>>=◌ {ℓ κ} : {A : Type ℓ} {B : Type κ} → Go A → (A → Go B) → Go B
◌>>=◌ m f b = and_then (m b) f

abbrev pub ◌>>◌ {ℓ} : {B : Type ℓ} → Go (Unit {0}) → Go B → Go B
m >> k = m >>= λ _. k

abbrev pub return {ℓ} : {A : Type ℓ} → A → Go A
return a b = done a b

abbrev pub throw {ℓ} : {A : Type ℓ} → Error → Go A
throw e b = fail e b

-- `if cond { return err }`
unfoldable pub reject_if : Bool → Error → Go (Unit {0})
reject_if true e b = fail e b
reject_if false e b = done tt b

-- `buf.Size()`
abbrev pub get_bytes : Go Bytes
get_bytes b = done b b
