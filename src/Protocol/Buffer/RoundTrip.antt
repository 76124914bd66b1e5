-- ===== src/Protocol/Buffer/RoundTrip.antt =====
-- The consuming methods of Buffer on bytes that the appending methods wrote.
use gowarcraft.Prelude.{ℕ, zero, suc, ◌/◌, ◌^◌, ◌≡◌, ◌≢◌, [], ◌∷◌}
use gowarcraft.Prelude.{◌++◌, refl, ap, length, length-append, take-length_append}
use gowarcraft.Prelude.{
  drop-length_append, All, append-nil, arith, IsU16, IsU32, IsU64, some, true, leb,
}
use gowarcraft.Protocol.Go.{Bytes, done}
use gowarcraft.Protocol.Buffer.{byte, read_blob, read_uint16, read_uint32, read_uint64}
use gowarcraft.Protocol.Buffer.{split_at_zero, prepend, read_c_string}

-- The little-endian bytes of a number, before `rest`.
abbrev pub le16 : ℕ → Bytes → Bytes
le16 v rest = byte v ∷ byte (v / 2 ^ 8) ∷ rest

abbrev pub le32 : ℕ → Bytes → Bytes
le32 v rest = byte v ∷ byte (v / 2 ^ 8) ∷ byte (v / 2 ^ 16) ∷ byte (v / 2 ^ 24) ∷ rest

pub read_uint16-le : (v : ℕ) (rest : Bytes) → IsU16 v → read_uint16 (le16 v rest) ≡ done v rest
unfolding read_uint16
read_uint16-le v rest h = ground arith

pub read_uint32-le : (v : ℕ) (rest : Bytes) → IsU32 v → read_uint32 (le32 v rest) ≡ done v rest
unfolding read_uint32
read_uint32-le v rest h = ground arith

pub read_uint64-le :
    (v : ℕ) (rest : Bytes)
    → IsU64 v
    → read_uint64 (
        byte v
        ∷ byte (v / 2 ^ 8)
        ∷ byte (v / 2 ^ 16)
        ∷ byte (v / 2 ^ 24)
        ∷ byte (v / 2 ^ 32)
        ∷ byte (v / 2 ^ 40)
        ∷ byte (v / 2 ^ 48)
        ∷ byte (v / 2 ^ 56)
        ∷ rest)
      ≡ done v rest
unfolding read_uint64
read_uint64-le v rest h = ground arith

pub leb-length_append : (v rest : Bytes) → leb (length v) (length (v ++ rest)) ≡ true
leb-length_append v rest = ground (arith, length-append {0} v rest)

pub read_blob-append : (v rest : Bytes) → read_blob (length v) (v ++ rest) ≡ done v rest
unfolding read_blob
read_blob-append [] rest = refl
read_blob-append (x ∷ v) rest =
    rw (leb-length_append (x ∷ v) rest, take-length_append v rest, drop-length_append v rest)

pub read_blob_all : (v : Bytes) → read_blob (length v) v ≡ done v []
read_blob_all v = rw append-nil at (read_blob-append v [])

-- The bytes of a string that WriteCString can carry.
abbrev pub IsCString : Bytes → Type 0
IsCString = All (λ b. b ≢ 0)

pub split_at_zero-append :
    (v rest : Bytes) → IsCString v → split_at_zero (v ++ 0 ∷ rest) ≡ some (v, rest)
unfolding split_at_zero
split_at_zero-append [] rest h = refl
split_at_zero-append (zero ∷ v) rest (h, hs) = absurd (h refl)
split_at_zero-append (suc x ∷ v) rest (h, hs) =
    ap (prepend (suc x)) (split_at_zero-append v rest hs)

pub read_c_string-append :
    (v rest : Bytes) → IsCString v → read_c_string (v ++ 0 ∷ rest) ≡ done v rest
unfolding read_c_string
read_c_string-append v rest h = rw (split_at_zero-append v rest h)
