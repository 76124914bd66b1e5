-- ===== src/W3gs/Membership/RoundTrip.antt =====
-- Leave, PlayerKicked, LeaveAck, PlayerLeft and RejectJoin: Serialize followed by Deserialize.
use gowarcraft.Prelude.{IsU8, IsU32, ◌≡◌, [], arith}
use gowarcraft.Protocol.Go.{◌>>=◌, done}
use gowarcraft.W3gs.Header.{header_calls}
use gowarcraft.W3gs.Membership.{
  Leave, serialize_leave, deserialize_leave, serialize_player_kicked, serialize_leave_ack,
  deserialize_leave_ack, PlayerLeft, serialize_player_left, deserialize_player_left, RejectJoin,
  serialize_reject_join, deserialize_reject_join,
}

pub record ValidLeave (p : Leave) : Type 0 where
  pub reason : IsU32 p.reason

pub leave_round_trip :
    (p : Leave) → ValidLeave p → (serialize_leave p >>= λ _. deserialize_leave) [] ≡ done p []
unfolding serialize_leave deserialize_leave header_calls
leave_round_trip p h = ground arith

pub player_kicked_round_trip :
    (p : Leave)
    → ValidLeave p
    → (serialize_player_kicked p >>= λ _. deserialize_leave) [] ≡ done p []
unfolding serialize_player_kicked serialize_leave deserialize_leave header_calls
player_kicked_round_trip p h = ground arith

pub leave_ack_round_trip : (serialize_leave_ack tt >>= λ _. deserialize_leave_ack) [] ≡ done tt []
unfolding serialize_leave_ack deserialize_leave_ack header_calls
leave_ack_round_trip = ground arith

pub record ValidPlayerLeft (p : PlayerLeft) : Type 0 where
  pub player_id : IsU8 p.player_id
  pub reason : IsU32 p.reason

pub player_left_round_trip :
    (p : PlayerLeft)
    → ValidPlayerLeft p
    → (serialize_player_left p >>= λ _. deserialize_player_left) [] ≡ done p []
unfolding serialize_player_left deserialize_player_left header_calls
player_left_round_trip p h = ground arith

pub record ValidRejectJoin (p : RejectJoin) : Type 0 where
  pub reason : IsU32 p.reason

pub reject_join_round_trip :
    (p : RejectJoin)
    → ValidRejectJoin p
    → (serialize_reject_join p >>= λ _. deserialize_reject_join) [] ≡ done p []
unfolding serialize_reject_join deserialize_reject_join header_calls
reject_join_round_trip p h = ground arith

-- For each Leave, PlayerKicked, LeaveAck, PlayerLeft and RejectJoin, Serialize on an empty
-- buffer and then Deserialize returns the same packet and leaves the buffer empty, if its
-- numbers fit their fields.
pub membership_round_trips :
    (a : Leave) (b : PlayerLeft) (c : RejectJoin)
    → ValidLeave a
    → ValidPlayerLeft b
    → ValidRejectJoin c
    → ((serialize_leave a >>= λ _. deserialize_leave) [] ≡ done a [])
      × ((serialize_player_kicked a >>= λ _. deserialize_leave) [] ≡ done a [])
      × ((serialize_leave_ack tt >>= λ _. deserialize_leave_ack) [] ≡ done tt [])
      × ((serialize_player_left b >>= λ _. deserialize_player_left) [] ≡ done b [])
      × ((serialize_reject_join c >>= λ _. deserialize_reject_join) [] ≡ done c [])
membership_round_trips a b c ha hb hc = (
  leave_round_trip a ha,
  player_kicked_round_trip a ha,
  leave_ack_round_trip,
  player_left_round_trip b hb,
  reject_join_round_trip c hc,
)
