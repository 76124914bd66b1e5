-- ===== src/W3gs/Action/RoundTrip.antt =====
-- GameAction, TimeSlotAck and Desync: Serialize followed by Deserialize.
use gowarcraft.Prelude.{true}
use gowarcraft.Prelude.{ℕ, ◌+◌, ◌%◌, ◌^◌, ◌≡◌, [], ◌∷◌, length, IsU8, IsU16, IsU32, arith}
use gowarcraft.Prelude.{append_assoc}
use gowarcraft.Protocol.Go.{Bytes, ◌>>=◌, done, and_then}
use gowarcraft.Protocol.Buffer.{buffer_calls, byte}
use gowarcraft.Protocol.Buffer.RoundTrip.{le32, read_blob_all}
use gowarcraft.W3gs.Header.{header_calls}
use gowarcraft.W3gs.Header.RoundTrip.{
  framed, framed-packet_bytes, packet_bytes, read_packet_size-packet_bytes,
}
use gowarcraft.W3gs.Pid
use gowarcraft.W3gs.Action.{GameAction, serialize_game_action, deserialize_game_action, TimeSlotAck}
use gowarcraft.W3gs.Action.{serialize_time_slot_ack, deserialize_time_slot_ack, Desync}
use gowarcraft.W3gs.Action.{serialize_desync, deserialize_desync, serialize_desync_content}
use gowarcraft.W3gs.Action.{deserialize_desync_content}

abbrev pub ValidGameAction : GameAction → Type 0
ValidGameAction p = IsU16 (8 + length p.content)

module _ (crc32 : Bytes → ℕ) (p : GameAction) (h : ValidGameAction p) where
  action_body : Bytes
  action_body = le32 (crc32 p.content % 2 ^ 32) p.content

  serialize_game_action-bytes :
      serialize_game_action crc32 p []
      ≡ done tt (packet_bytes Pid.outgoing_action ((8 + length p.content) % 2 ^ 16) action_body)
  unfolding serialize_game_action action_body buffer_calls
  serialize_game_action-bytes = simp append_assoc

  deserialize_game_action-bytes :
      deserialize_game_action crc32
        (packet_bytes Pid.outgoing_action ((8 + length p.content) % 2 ^ 16) action_body)
      ≡ done p []
  unfolding deserialize_game_action
  deserialize_game_action-bytes =
      rw
        (read_packet_size-packet_bytes Pid.outgoing_action (8 + length p.content) action_body h
          (unfold action_body in omega arith))
        (unfold action_body buffer_calls in ground (arith, read_blob_all p.content))

  pub serialize_game_action-framed :
      framed Pid.outgoing_action (serialize_game_action crc32 p []) ≡ true
  serialize_game_action-framed = rw serialize_game_action-bytes (
      framed-packet_bytes Pid.outgoing_action (8 + length p.content) action_body h
        (unfold action_body in omega arith))

  -- For a GameAction whose size fits sixteen bits, and for any checksum function, Serialize on
  -- an empty buffer and then Deserialize returns the same packet and leaves the buffer empty.
  pub game_action_round_trip :
      (serialize_game_action crc32 p >>= λ _. deserialize_game_action crc32) [] ≡ done p []
  unfolding and_then
  game_action_round_trip = rw serialize_game_action-bytes deserialize_game_action-bytes

pub record ValidTimeSlotAck (p : TimeSlotAck) : Type 0 where
  pub unknown1 : IsU8 p.unknown1
  pub checksum : IsU32 p.checksum

pub time_slot_ack_round_trip :
    (p : TimeSlotAck)
    → ValidTimeSlotAck p
    → (serialize_time_slot_ack p >>= λ _. deserialize_time_slot_ack) [] ≡ done p []
unfolding serialize_time_slot_ack deserialize_time_slot_ack header_calls
time_slot_ack_round_trip p h = ground arith

pub record ValidDesync (p : Desync) : Type 0 where
  pub unknown1 : IsU32 p.unknown1
  pub checksum : IsU32 p.checksum
  pub fits : IsU8 (length p.players_in_state)

module _ (p : Desync) (h : ValidDesync p) where
  desync_body : Bytes
  desync_body =
      le32 p.unknown1 (4 ∷ le32 p.checksum (byte (length p.players_in_state) ∷ p.players_in_state))

  serialize_desync-bytes :
      serialize_desync p []
      ≡ done tt (packet_bytes Pid.desync ((14 + length p.players_in_state) % 2 ^ 16) desync_body)
  unfolding serialize_desync serialize_desync_content desync_body buffer_calls
  serialize_desync-bytes = simp append_assoc

  deserialize_desync-bytes :
      deserialize_desync
        (packet_bytes Pid.desync ((14 + length p.players_in_state) % 2 ^ 16) desync_body)
      ≡ done p []
  unfolding deserialize_desync deserialize_desync_content
  deserialize_desync-bytes =
      rw
        (read_packet_size-packet_bytes Pid.desync (14 + length p.players_in_state) desync_body
          (omega (arith, h.fits)) (unfold desync_body in omega arith))
        (unfold desync_body buffer_calls in ground (arith, read_blob_all p.players_in_state))

  pub serialize_desync-framed : framed Pid.desync (serialize_desync p []) ≡ true
  serialize_desync-framed = rw serialize_desync-bytes (
      framed-packet_bytes Pid.desync (14 + length p.players_in_state) desync_body
        (omega (arith, h.fits)) (unfold desync_body in omega arith))

  -- For a Desync with two numbers of 32 bits and at most 255 players, Serialize on an empty
  -- buffer and then Deserialize returns the same packet and leaves the buffer empty.
  pub desync_round_trip : (serialize_desync p >>= λ _. deserialize_desync) [] ≡ done p []
  unfolding and_then
  desync_round_trip = rw serialize_desync-bytes deserialize_desync-bytes
