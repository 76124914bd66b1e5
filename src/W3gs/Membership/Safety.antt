-- ===== src/W3gs/Membership/Safety.antt =====
-- Leave, PlayerKicked, LeaveAck, PlayerLeft and RejectJoin: Deserialize on any bytes.
use gowarcraft.Prelude.{arith}
use gowarcraft.Protocol.Go.{Bytes, NoPanic}
use gowarcraft.W3gs.Header.{header_calls}
use gowarcraft.W3gs.Membership.{
  deserialize_leave, deserialize_leave_ack, deserialize_player_left, deserialize_reject_join,
}

pub deserialize_leave-NoPanic : (b : Bytes) → NoPanic (deserialize_leave b)
unfolding deserialize_leave header_calls
deserialize_leave-NoPanic b = ground arith

pub deserialize_leave_ack-NoPanic : (b : Bytes) → NoPanic (deserialize_leave_ack b)
unfolding deserialize_leave_ack header_calls
deserialize_leave_ack-NoPanic b = ground arith

pub deserialize_player_left-NoPanic : (b : Bytes) → NoPanic (deserialize_player_left b)
unfolding deserialize_player_left header_calls
deserialize_player_left-NoPanic b = ground arith

pub deserialize_reject_join-NoPanic : (b : Bytes) → NoPanic (deserialize_reject_join b)
unfolding deserialize_reject_join header_calls
deserialize_reject_join-NoPanic b = ground arith
