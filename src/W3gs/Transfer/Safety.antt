-- ===== src/W3gs/Transfer/Safety.antt =====
-- StartDownload, MapState, MapPartOK and MapPartError: Deserialize on any bytes.
use gowarcraft.Prelude.{arith}
use gowarcraft.Protocol.Go.{Bytes, NoPanic}
use gowarcraft.W3gs.Header.{header_calls}
use gowarcraft.W3gs.Transfer.{
  deserialize_start_download, deserialize_map_state, deserialize_map_part_ok,
  deserialize_map_part_error,
}

pub deserialize_start_download-NoPanic : (b : Bytes) → NoPanic (deserialize_start_download b)
unfolding deserialize_start_download header_calls
deserialize_start_download-NoPanic b = ground arith

pub deserialize_map_state-NoPanic : (b : Bytes) → NoPanic (deserialize_map_state b)
unfolding deserialize_map_state header_calls
deserialize_map_state-NoPanic b = ground arith

pub deserialize_map_part_ok-NoPanic : (b : Bytes) → NoPanic (deserialize_map_part_ok b)
unfolding deserialize_map_part_ok header_calls
deserialize_map_part_ok-NoPanic b = ground arith

pub deserialize_map_part_error-NoPanic : (b : Bytes) → NoPanic (deserialize_map_part_error b)
unfolding deserialize_map_part_error header_calls
deserialize_map_part_error-NoPanic b = ground arith
