-- ===== src/W3gs/Action/Safety.antt =====
-- GameAction, TimeSlotAck and Desync: Deserialize on any bytes.
use gowarcraft.Prelude.{ℕ, ◌-◌, ◌≤◌, length, arith}
use gowarcraft.Protocol.Go.{Bytes, NoPanic}
use gowarcraft.Protocol.Buffer.NoPanic.{rejected, returned, after_lt, after_ne, after_uint8}
use gowarcraft.Protocol.Buffer.NoPanic.{after_uint32, after_blob, after_bytes, after_call}
use gowarcraft.W3gs.Header.{header_calls}
use gowarcraft.W3gs.Header.NoPanic.{after_size}
use gowarcraft.W3gs.Action.{deserialize_game_action, deserialize_time_slot_ack, deserialize_desync}
use gowarcraft.W3gs.Action.{deserialize_desync_content}

-- Deserialize of a GameAction does not panic, whatever bytes the buffer holds and whatever the
-- checksum function is.
pub deserialize_game_action-NoPanic :
    (crc32 : Bytes → ℕ) (b : Bytes) → NoPanic (deserialize_game_action crc32 b)
unfolding deserialize_game_action
deserialize_game_action-NoPanic crc32 b =
    after_size _ b (λ r. rejected _ _ r)
      λ n r h. after_lt _ n _ _ _ λ c. after_uint32 _ (omega arith) λ crc r1 h1.
        after_blob (n - 8) _ (omega arith) λ s r2 hs h2. after_ne _ _ _ _ _ λ c2. returned _ _

pub deserialize_time_slot_ack-NoPanic : (b : Bytes) → NoPanic (deserialize_time_slot_ack b)
unfolding deserialize_time_slot_ack header_calls
deserialize_time_slot_ack-NoPanic b = ground arith

-- The content's own guard covers the list; ten bytes must be there before it.
deserialize_desync_content-NoPanic :
    (b : Bytes) → 10 ≤ length b → NoPanic (deserialize_desync_content b)
unfolding deserialize_desync_content
deserialize_desync_content-NoPanic b h = after_uint32 _ (omega arith) λ v r1 h1.
    after_uint8 _ (omega arith) λ k r2 h2. after_ne _ _ _ _ _ λ c2.
      after_uint32 _ (omega arith) λ v r3 h3. after_uint8 _ (omega arith) λ n r4 h4.
        after_bytes _ _ (
          after_lt _ (length r4) n _ _
            λ c4. after_blob n _ (omega arith) λ s r5 hs h5. returned _ _)

-- Deserialize of a Desync does not panic, whatever bytes the buffer holds.
pub deserialize_desync-NoPanic : (b : Bytes) → NoPanic (deserialize_desync b)
unfolding deserialize_desync
deserialize_desync-NoPanic b =
    after_size _ b (λ r. rejected _ _ r)
      λ n r h. after_lt _ n _ _ _ λ c.
        after_call deserialize_desync_content _ r
          (deserialize_desync_content-NoPanic r (omega arith))
          λ p r1 e. after_ne _ n _ _ _ λ c1. returned _ _
