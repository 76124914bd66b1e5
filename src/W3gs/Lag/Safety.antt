-- ===== src/W3gs/Lag/Safety.antt =====
-- StartLag, StopLag and DropLaggers: Deserialize on any bytes.
use gowarcraft.Prelude.{ℕ, zero, suc, ◌*◌, ◌≤◌, ◌≢◌, length, arith}
use gowarcraft.Protocol.Go.{Bytes, NoPanic, panic}
use gowarcraft.Protocol.Buffer.{buffer_calls}
use gowarcraft.Protocol.Buffer.NoPanic.{rejected, returned, after_lt, after_ne, after_uint8}
use gowarcraft.Protocol.Buffer.NoPanic.{and_then-NoPanic}
use gowarcraft.W3gs.Header.{header_calls}
use gowarcraft.W3gs.Header.NoPanic.{after_size}
use gowarcraft.W3gs.Lag.{deserialize_lag_player, read_lag_players, deserialize_start_lag}
use gowarcraft.W3gs.Lag.{deserialize_stop_lag, deserialize_drop_laggers}

read_lag_players-ne-panic : (n : ℕ) (b : Bytes) → n * 5 ≤ length b → read_lag_players n b ≢ panic
unfolding read_lag_players deserialize_lag_player buffer_calls
read_lag_players-ne-panic zero b h = ground arith
read_lag_players-ne-panic (suc n) b h = grind (arith, read_lag_players-ne-panic n)

-- Deserialize of a StartLag does not panic, whatever bytes the buffer holds: the size guard
-- covers the loop over the players.
pub deserialize_start_lag-NoPanic : (b : Bytes) → NoPanic (deserialize_start_lag b)
unfolding deserialize_start_lag
deserialize_start_lag-NoPanic b =
    after_size _ b (λ r. rejected _ _ r)
      λ n r h. after_lt _ n _ _ _ λ c. after_uint8 _ (omega arith) λ k r1 h1.
        after_ne _ n _ _ _ λ c1.
          and_then-NoPanic _ _ (read_lag_players-ne-panic k r1 (omega arith))
            λ ps r2 e. returned _ _

pub deserialize_stop_lag-NoPanic : (b : Bytes) → NoPanic (deserialize_stop_lag b)
unfolding deserialize_stop_lag deserialize_lag_player header_calls
deserialize_stop_lag-NoPanic b = ground arith

pub deserialize_drop_laggers-NoPanic : (b : Bytes) → NoPanic (deserialize_drop_laggers b)
unfolding deserialize_drop_laggers header_calls
deserialize_drop_laggers-NoPanic b = ground arith
