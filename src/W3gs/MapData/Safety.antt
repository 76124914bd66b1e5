-- ===== src/W3gs/MapData/Safety.antt =====
-- MapCheck and MapPart: Deserialize on any bytes.
use gowarcraft.Prelude.{ℕ, ◌-◌, arith}
use gowarcraft.Protocol.Go.{Bytes, NoPanic}
use gowarcraft.Protocol.Buffer.NoPanic.{rejected, returned, after_lt, after_ne, after_uint8}
use gowarcraft.Protocol.Buffer.NoPanic.{after_uint32, after_blob, after_c_string}
use gowarcraft.W3gs.Header.NoPanic.{after_size}
use gowarcraft.W3gs.MapData.{deserialize_map_check, deserialize_map_part}

-- Deserialize of a MapCheck does not panic, whatever bytes the buffer holds.
pub deserialize_map_check-NoPanic : (b : Bytes) → NoPanic (deserialize_map_check b)
unfolding deserialize_map_check
deserialize_map_check-NoPanic b =
    after_size _ b (λ r. rejected _ _ r)
      λ n r h. after_lt _ n _ _ _ λ c. after_uint32 _ (omega arith) λ k r1 h1.
        after_ne _ _ _ _ _ λ c1. after_c_string _ λ path r2 h2. after_ne _ n _ _ _ λ c2.
          after_uint32 _ (omega arith) λ v r3 h3. after_uint32 _ (omega arith) λ v r4 h4.
            after_uint32 _ (omega arith)
              λ v r5 h5. after_blob 20 _ (omega arith) λ s r6 hs h6. returned _ _

-- Deserialize of a MapPart does not panic, whatever bytes the buffer holds and whatever the
-- checksum function is.
pub deserialize_map_part-NoPanic :
    (crc32 : Bytes → ℕ) (b : Bytes) → NoPanic (deserialize_map_part crc32 b)
unfolding deserialize_map_part
deserialize_map_part-NoPanic crc32 b =
    after_size _ b (λ r. rejected _ _ r)
      λ n r h. after_lt _ n _ _ _ λ c. after_uint8 _ (omega arith) λ v r1 h1.
        after_uint8 _ (omega arith) λ v r2 h2. after_uint32 _ (omega arith) λ k r3 h3.
          after_ne _ _ _ _ _ λ c3. after_uint32 _ (omega arith) λ pos r4 h4.
            after_uint32 _ (omega arith) λ crc r5 h5.
              after_blob (n - 18) _ (omega arith)
                λ s r6 hs h6. after_ne _ _ _ _ _ λ c6. returned _ _
