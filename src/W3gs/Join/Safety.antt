-- ===== src/W3gs/Join/Safety.antt =====
-- Join and PlayerInfo: Deserialize on any bytes.
use gowarcraft.Prelude.{arith}
use gowarcraft.Protocol.Go.{Bytes, NoPanic}
use gowarcraft.Protocol.Buffer.NoPanic.{rejected, returned, after_lt, after_ne, after_uint8}
use gowarcraft.Protocol.Buffer.NoPanic.{after_uint16, after_uint32, after_c_string, after_skip}
use gowarcraft.Protocol.Buffer.NoPanic.{after_sock_addr}
use gowarcraft.W3gs.Header.NoPanic.{after_size}
use gowarcraft.W3gs.Join.{deserialize_join, deserialize_player_info}

-- Deserialize of a Join does not panic, whatever bytes the buffer holds.
pub deserialize_join-NoPanic : (b : Bytes) → NoPanic (deserialize_join b)
unfolding deserialize_join
deserialize_join-NoPanic b =
    after_size _ b (λ r. rejected _ _ r)
      λ n r h. after_lt _ n _ _ _ λ c. after_uint32 _ (omega arith) λ v r1 h1.
        after_uint32 _ (omega arith) λ v r2 h2. after_uint8 _ (omega arith) λ v r3 h3.
          after_ne _ _ _ _ _ λ z. after_uint16 _ (omega arith) λ v r4 h4.
            after_uint32 _ (omega arith) λ v r5 h5. after_c_string _ λ s r6 h6.
              after_lt _ n _ _ _ λ c6. after_uint8 _ (omega arith) λ k r7 h7.
                after_ne _ n _ _ _ λ c7.
                  after_skip _ k _ (omega arith)
                    λ r8 h8. after_sock_addr _ (omega arith) λ a r9 h9. returned _ _

-- Deserialize of a PlayerInfo does not panic, whatever bytes the buffer holds.
pub deserialize_player_info-NoPanic : (b : Bytes) → NoPanic (deserialize_player_info b)
unfolding deserialize_player_info
deserialize_player_info-NoPanic b =
    after_size _ b (λ r. rejected _ _ r)
      λ n r h. after_lt _ n _ _ _ λ c. after_uint32 _ (omega arith) λ v r1 h1.
        after_uint8 _ (omega arith) λ v r2 h2. after_c_string _ λ s r3 h3. after_lt _ n _ _ _ λ c3.
          after_uint8 _ (omega arith) λ k r4 h4. after_ne _ n _ _ _ λ c4.
            after_skip _ k _ (omega arith) λ r5 h5.
              after_sock_addr _ (omega arith)
                λ a r6 h6. after_sock_addr _ (omega arith) λ a' r7 h7. returned _ _
