-- ===== src/Replays/Header/Examples.antt =====
-- The header of a replay of two blocks, with a checksum that counts bytes.
use gowarcraft.Prelude.{◌≡◌, false, [], ◌++◌, length, arith}
use gowarcraft.Protocol.Go.{Bytes, done}
use gowarcraft.Replays.Header.{Header, Sizes, write_header, decode_header, opened}
use gowarcraft.Replays.Header.RoundTrip.{decode_header-write_header}

abbrev header : Header
header = record {
  game_version = record { product = 0x50583357; version = 26 };
  build_number = 6059;
  duration_ms = 90000;
  single_player = false;
}

abbrev sizes : Sizes
sizes = record { size_written = 5000; size_total = 16384; num_blocks = 2 }

decode_header-write_header_example :
    (written : Bytes) × (write_header (λ b. length b) header sizes [] ≡ done tt written)
    × (length written ≡ 68)
    × ((rest : Bytes)
        → decode_header (λ b. length b) (written ++ rest) ≡ opened header 2 16384 68 rest)
decode_header-write_header_example =
    decode_header-write_header (λ b. length b) header sizes
      (record {
        product = omega arith;
        version = omega arith;
        build_number = omega arith;
        duration_ms = omega arith;
        size_written = omega arith;
        size_total = omega arith;
        num_blocks = omega arith;
      })
