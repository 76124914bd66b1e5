-- ===== src/Replays/Header.antt =====
-- file/w3g/header.go: the header of a replay, as Encoder.Close writes it and DecodeHeader reads it.
-- A reader is the bytes that it yields before its end. The count of bytes that DecodeHeader returns
-- with an error is left out, and so is the Decompressor, which is made of the counts and the rest.
pub mod RoundTrip
mod Examples
use gowarcraft.Prelude.{
  ℕ, ◌+◌, ◌-◌, ◌%◌, ◌^◌, ◌==◌, ◌||◌, not, Bool, true, false, ltb, if◌then◌else◌, [], ◌∷◌, ◌++◌,
  length, take, drop,
}
use gowarcraft.Protocol.Go.{Bytes, Go, Outcome, done, fail, panic, ◌>>=◌, ◌>>◌, return, get_bytes}
use gowarcraft.Protocol.Buffer.{
  read_uint16, read_uint32, read_c_string, write_uint16, write_uint32, write_c_string,
  write_uint32_at,
}
use gowarcraft.W3gs.GameInfo.{GameVersion, serialize_game_version, deserialize_game_version}
use gowarcraft.Network.Events.{same}

-- "Warcraft III recorded game\x1A"
abbrev pub signature : Bytes
signature =
    87 ∷ 97 ∷ 114 ∷ 99 ∷ 114 ∷ 97 ∷ 102 ∷ 116 ∷ 32 ∷ 73 ∷ 73 ∷ 73 ∷ 32 ∷ 114 ∷ 101 ∷ 99 ∷ 111 ∷ 114
    ∷ 100 ∷ 101 ∷ 100 ∷ 32 ∷ 103 ∷ 97 ∷ 109 ∷ 101 ∷ 26 ∷ []

pub record Header : Type 0 where
  pub game_version : GameVersion
  pub build_number : ℕ
  pub duration_ms : ℕ
  pub single_player : Bool

-- What a BlockCompressor has counted.
pub record Sizes : Type 0 where
  pub size_written : ℕ
  pub size_total : ℕ
  pub num_blocks : ℕ

abbrev pub player_flag : Bool → ℕ
player_flag single_player = if single_player then 0 else 0x8000

abbrev pub write_fields : Header → Sizes → Go (Unit {0})
write_fields e z = do
  write_c_string signature
  write_uint32 68
  write_uint32 ((z.size_written + 68) % 2 ^ 32)
  write_uint32 1
  write_uint32 z.size_total
  write_uint32 z.num_blocks
  serialize_game_version e.game_version
  write_uint16 e.build_number
  write_uint16 (player_flag e.single_player)
  write_uint32 e.duration_ms
  write_uint32 0

-- Why DecodeHeader fails.
pub data HeaderError : Type 0 where
  eof : HeaderError
  unexpected_eof : HeaderError
  no_terminator : HeaderError
  bad_format : HeaderError
  unexpected_const : HeaderError
  invalid_checksum : HeaderError

pub data Opened : Type 0 where
  opened : Header → (num_blocks size_blocks : ℕ) → (n : ℕ) → (rest : Bytes) → Opened
  refused : HeaderError → Opened
  panicked : Opened

-- The fields from the version of the header on, and the checksum.
pub record Fields : Type 0 where
  pub header : Header
  pub num_blocks : ℕ
  pub size_blocks : ℕ
  pub crc : ℕ

-- The Product of the first game, w3gs.ProductROC.
abbrev pub product_roc : ℕ
product_roc = 0x33524157

abbrev pub read_tail : ℕ → ℕ → GameVersion → Go Fields
read_tail size_blocks num_blocks gv = do
  build_number ← read_uint16
  flag ← read_uint16
  duration_ms ← read_uint32
  crc ← read_uint32
  return (record {
    header = record {
      game_version = gv;
      build_number = build_number;
      duration_ms = duration_ms;
      single_player = flag == 0;
    };
    num_blocks = num_blocks;
    size_blocks = size_blocks;
    crc = crc;
  })

abbrev pub read_fields1 : Go Fields
read_fields1 = do
  size_blocks ← read_uint32
  num_blocks ← read_uint32
  gv ← deserialize_game_version
  read_tail size_blocks num_blocks gv

-- The version of a header of the first format, whose two bytes before it are 0.
abbrev pub read_fields0 : Go (ℕ × Fields)
read_fields0 = do
  size_blocks ← read_uint32
  num_blocks ← read_uint32
  zero_word ← read_uint16
  version ← read_uint16
  fields ← read_tail size_blocks num_blocks (record { product = product_roc; version = version })
  return (zero_word, fields)

-- The error of io.ReadFull when too few bytes are left.
abbrev pub read_full : Bytes → HeaderError
read_full r = if length r == 0 then eof else unexpected_eof

abbrev pub read_prefix : Go (ℕ × ℕ × ℕ)
read_prefix = do
  size_header ← read_uint32
  size_file ← read_uint32
  version ← read_uint32
  return (size_header, size_file, version)

abbrev pub zero_crc : ℕ → Bytes → Bytes
zero_crc n buf = take (n - 4) buf ++ 0 ∷ 0 ∷ 0 ∷ 0 ∷ []

module _ (crc32 : Bytes → ℕ) where
  -- The header that Close writes.
  unfoldable pub write_header : Header → Sizes → Go (Unit {0})
  write_header e z = do write_fields e z; buf ← get_bytes; write_uint32_at 64 (crc32 buf % 2 ^ 32)

  -- The checks behind the fields, of the `n` bytes `buf`, and what is left after the header.
  abbrev pub skip_rest : ℕ → ℕ → Fields → Bytes → Opened
  skip_rest n size_header f r =
      if ltb (length r) (size_header - n)
      then refused eof
      else opened f.header f.num_blocks f.size_blocks size_header (drop (size_header - n) r)

  abbrev pub check_header : ℕ → ℕ → ℕ → Bytes → Bytes → Fields → Opened
  check_header n size_header size_file buf r f =
      if not (f.crc == crc32 (zero_crc n buf) % 2 ^ 32)
      then refused invalid_checksum
      else (if ltb size_header n || ltb size_file n
          then refused bad_format
          else skip_rest n size_header f r)

  abbrev pub after_fields : Outcome Fields → (Fields → Opened) → Opened
  after_fields (done f s) k = k f
  after_fields (fail e s) k = panicked
  after_fields panic k = panicked

  abbrev pub after_fields0 : Outcome (ℕ × Fields) → (Fields → Opened) → Opened
  after_fields0 (done (zero_word, f) s) k = if zero_word == 0 then k f else refused unexpected_const
  after_fields0 (fail e s) k = panicked
  after_fields0 panic k = panicked

  -- The end of the array is filled only for version 1, which reads four bytes more.
  abbrev pub read_by_version : (version size_header size_file : ℕ) → (pbuf buf r : Bytes) → Opened
  read_by_version version size_header size_file pbuf buf r =
      if version == 0
      then after_fields0 (read_fields0 pbuf) (check_header 64 size_header size_file buf r)
      else (if not (version == 1)
          then refused unexpected_const
          else (if ltb (length r) 4
              then refused (read_full r)
              else after_fields (read_fields1 (take (length pbuf - 4) pbuf ++ take 4 r))
                  (check_header 68 size_header size_file (buf ++ take 4 r) (drop 4 r))))

  abbrev pub after_prefix : Outcome (ℕ × ℕ × ℕ) → (buf r : Bytes) → Opened
  after_prefix (done (size_header, size_file, version) pbuf) buf r =
      read_by_version version size_header size_file pbuf buf r
  after_prefix (fail e s) buf r = panicked
  after_prefix panic buf r = panicked

  abbrev pub after_signature : Outcome Bytes → (buf r : Bytes) → Opened
  after_signature (done s pbuf) buf r =
      if same s signature then after_prefix (read_prefix pbuf) buf r else refused bad_format
  after_signature (fail e s) buf r = refused no_terminator
  after_signature panic buf r = panicked

  -- pbuf is the whole array of 68 bytes, whose last four are 0 at first.
  unfoldable pub decode_header : Bytes → Opened
  decode_header r =
      if ltb (length r) 64
      then refused (read_full r)
      else after_signature (read_c_string (take 64 r ++ 0 ∷ 0 ∷ 0 ∷ 0 ∷ [])) (take 64 r) (drop 64 r)
