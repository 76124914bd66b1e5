-- ===== src/W3gs/Transfer/RoundTrip.antt =====
-- StartDownload, MapState, MapPartOK and MapPartError: Serialize followed by Deserialize.
use gowarcraft.Prelude.{IsU8, IsU32, ◌≡◌, [], arith}
use gowarcraft.Protocol.Go.{◌>>=◌, done}
use gowarcraft.W3gs.Header.{header_calls}
use gowarcraft.W3gs.Transfer.{
  StartDownload, serialize_start_download, deserialize_start_download, MapState,
  serialize_map_state, deserialize_map_state, MapPartOk, serialize_map_part_ok,
  deserialize_map_part_ok, serialize_map_part_error, deserialize_map_part_error,
}

pub record ValidStartDownload (p : StartDownload) : Type 0 where
  pub player_id : IsU8 p.player_id

pub start_download_round_trip :
    (p : StartDownload)
    → ValidStartDownload p
    → (serialize_start_download p >>= λ _. deserialize_start_download) [] ≡ done p []
unfolding serialize_start_download deserialize_start_download header_calls
start_download_round_trip p h = ground arith

pub record ValidMapState (p : MapState) : Type 0 where
  pub file_size : IsU32 p.file_size

pub map_state_round_trip :
    (p : MapState)
    → ValidMapState p
    → (serialize_map_state p >>= λ _. deserialize_map_state) [] ≡ done p []
unfolding serialize_map_state deserialize_map_state header_calls
map_state_round_trip p h = ground arith

pub record ValidMapPartOk (p : MapPartOk) : Type 0 where
  pub sender_id : IsU8 p.sender_id
  pub recipient_id : IsU8 p.recipient_id
  pub chunk_pos : IsU32 p.chunk_pos

pub map_part_ok_round_trip :
    (p : MapPartOk)
    → ValidMapPartOk p
    → (serialize_map_part_ok p >>= λ _. deserialize_map_part_ok) [] ≡ done p []
unfolding serialize_map_part_ok deserialize_map_part_ok header_calls
map_part_ok_round_trip p h = ground arith

pub map_part_error_round_trip :
    (serialize_map_part_error tt >>= λ _. deserialize_map_part_error) [] ≡ done tt []
unfolding serialize_map_part_error deserialize_map_part_error header_calls
map_part_error_round_trip = ground arith

-- For each StartDownload, MapState, MapPartOK and MapPartError, Serialize on an empty buffer and
-- then Deserialize returns the same packet and leaves the buffer empty, if its numbers fit their
-- fields.
pub transfer_round_trips :
    (a : StartDownload) (b : MapState) (c : MapPartOk)
    → ValidStartDownload a
    → ValidMapState b
    → ValidMapPartOk c
    → ((serialize_start_download a >>= λ _. deserialize_start_download) [] ≡ done a [])
      × ((serialize_map_state b >>= λ _. deserialize_map_state) [] ≡ done b [])
      × ((serialize_map_part_ok c >>= λ _. deserialize_map_part_ok) [] ≡ done c [])
      × ((serialize_map_part_error tt >>= λ _. deserialize_map_part_error) [] ≡ done tt [])
transfer_round_trips a b c ha hb hc = (
  start_download_round_trip a ha,
  map_state_round_trip b hb,
  map_part_ok_round_trip c hc,
  map_part_error_round_trip,
)
