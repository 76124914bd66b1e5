-- ===== src/W3gs/Codec/RoundTrip.antt =====
-- A packet that is encoded is decoded to itself.
use gowarcraft.Prelude.{
  ℕ, suc, ltb, ap, sym, ◌∙◌, ◌≡◌, Bool, true, false, [], ◌∷◌, length, if◌then◌else◌, refl, arith,
}
use gowarcraft.Protocol.Go.{Bytes, Go, Outcome, done, fail, panic, and_then, return}
use gowarcraft.W3gs.Pid
use gowarcraft.W3gs.Header.{protocol_sig}
use gowarcraft.W3gs.Header.RoundTrip.{framed}
use gowarcraft.W3gs.Header.UnknownRoundTrip.{unknown_round_trip}
use gowarcraft.W3gs.Extra.RoundTrip.{player_extra_round_trip}
use gowarcraft.W3gs.Ping.RoundTrip.{
  ping_round_trip, peer_ping_round_trip, peer_pong_round_trip, pong_round_trip,
}
use gowarcraft.W3gs.Slots.RoundTrip.{slot_info_join_round_trip, slot_info_round_trip}
use gowarcraft.W3gs.Membership.RoundTrip.{
  reject_join_round_trip, player_left_round_trip, player_kicked_round_trip, leave_ack_round_trip,
  leave_round_trip,
}
use gowarcraft.W3gs.Join.RoundTrip.{player_info_round_trip, join_round_trip}
use gowarcraft.W3gs.Loading.RoundTrip.{
  player_loaded_round_trip, count_down_start_round_trip, count_down_end_round_trip,
  game_over_round_trip, game_loaded_round_trip,
}
use gowarcraft.W3gs.TimeSlot.RoundTrip.{time_slot_round_trip}
use gowarcraft.W3gs.Action.RoundTrip.{
  desync_round_trip, game_action_round_trip, time_slot_ack_round_trip,
}
use gowarcraft.W3gs.Chat.RoundTrip.{
  message_relay_round_trip, message_round_trip, peer_message_round_trip,
}
use gowarcraft.W3gs.Lag.RoundTrip.{
  start_lag_round_trip, stop_lag_round_trip, drop_laggers_round_trip,
}
use gowarcraft.W3gs.Listing.RoundTrip.{
  search_game_round_trip, create_game_round_trip, refresh_game_round_trip, decreate_game_round_trip,
}
use gowarcraft.W3gs.GameInfo.RoundTrip.{game_info_round_trip}
use gowarcraft.W3gs.Peer.RoundTrip.{peer_connect_round_trip, peer_set_round_trip}
use gowarcraft.W3gs.MapData.RoundTrip.{map_check_round_trip, map_part_round_trip}
use gowarcraft.W3gs.Transfer.RoundTrip.{
  start_download_round_trip, map_state_round_trip, map_part_ok_round_trip,
  map_part_error_round_trip,
}
use gowarcraft.W3gs.TimeSlot.{deserialize_time_slot}
use gowarcraft.W3gs.Packets.{
  Packet, MapFactory, packet_of, serialize, new_packet, default_factory, ping, slot_info_join,
  reject_join, player_info, player_left, player_loaded, slot_info, count_down_start, count_down_end,
  time_slot, desync, message_relay, start_lag, stop_lag, game_over, player_kicked, leave_ack, join,
  leave, game_loaded, game_action, time_slot_ack, message, drop_laggers, search_game, game_info,
  create_game, refresh_game, decreate_game, peer_message, peer_ping, peer_pong, peer_connect,
  peer_set, map_check, start_download, map_state, map_part, map_part_ok, map_part_error, pong,
  player_extra, unknown,
}
use gowarcraft.W3gs.Codec.{encode, bytes_of, decode}
use gowarcraft.W3gs.Codec.Framing.{Valid, pid_of, serialize-framed}

-- The bytes of an encoded packet, which are a frame and are decoded to the packet.
pub record IsCoded (f : MapFactory) (pid : ℕ) (p : Packet) (o : Outcome Bytes) : Type 0 where
  pub bytes : Bytes
  pub encoded : o ≡ done bytes bytes
  pub frame : framed pid (done tt bytes) ≡ true
  pub back : decode f bytes ≡ done p []

decode-frame :
    (f : MapFactory) (pid lo hi : ℕ) (body : Bytes)
    → decode f (protocol_sig ∷ pid ∷ lo ∷ hi ∷ body)
      ≡ new_packet f pid (protocol_sig ∷ pid ∷ lo ∷ hi ∷ body)
unfolding decode
decode-frame f pid lo hi body = rw (long (length body)) refl
  where
    long : (n : ℕ) → ltb (suc (suc (suc (suc n)))) 4 ≡ false
    long n = ground arith

module _ {A : Type 0} (f : MapFactory) (d : Go A) (c : A → Packet) (a : A) (pid : ℕ) where
  -- What is written and read back, in a frame, is decoded by a factory that knows it.
  decoded :
      (o : Outcome (Unit {0}))
      → framed pid o ≡ true
      → and_then o (λ _. d) ≡ done a []
      → ((b : Bytes) → new_packet f pid b ≡ packet_of c d b)
      → IsCoded f pid (c a) (bytes_of o)
  unfolding decode and_then
  decoded (done u (sig ∷ i ∷ lo ∷ hi ∷ body)) h e n =
      let same_bytes : sig ∷ i ∷ lo ∷ hi ∷ body ≡ protocol_sig ∷ pid ∷ lo ∷ hi ∷ body =
        ground (arith, h) in
      let read_back : d (protocol_sig ∷ pid ∷ lo ∷ hi ∷ body) ≡ done a [] =
        ap d (sym same_bytes) ∙ e in
      record {
        bytes = sig ∷ i ∷ lo ∷ hi ∷ body;
        encoded = refl;
        frame = h;
        back =
            ap (decode f) same_bytes
            ∙ decode-frame f pid lo hi body
            ∙ n _
            ∙ ap (λ (o : Outcome A). and_then o (λ p. return (c p))) read_back;
      }
  decoded (done u []) h e n = absurd (cc)
  decoded (done u (sig ∷ [])) h e n = absurd (cc)
  decoded (done u (sig ∷ i ∷ [])) h e n = absurd (cc)
  decoded (done u (sig ∷ i ∷ lo ∷ [])) h e n = absurd (cc)
  decoded (fail x b) h e n = absurd (cc)
  decoded panic h e n = absurd (cc)

module _ (crc32 : Bytes → ℕ) (decodes : ℕ → Bytes → Bool) where
  time_slot-new_packet :
      (fragment : Bool) (b : Bytes)
      → new_packet
          (default_factory crc32 decodes)
          (if fragment then Pid.incoming_action2 else Pid.incoming_action)
          b
        ≡ packet_of time_slot (deserialize_time_slot crc32) b
  unfolding default_factory
  time_slot-new_packet true b = refl
  time_slot-new_packet false b = refl

  -- Every valid packet
  pub encode-decode :
      (p : Packet)
      → Valid crc32 decodes p
      → IsCoded (default_factory crc32 decodes) (pid_of p) p (encode crc32 p)
  unfolding encode serialize default_factory
  encode-decode (ping p) h =
      decoded _ _ ping p _ _ (serialize-framed crc32 decodes (ping p) h) (ping_round_trip p h)
        (λ b. refl)
  encode-decode (slot_info_join p) h =
      decoded _ _ slot_info_join p _ _ (serialize-framed crc32 decodes (slot_info_join p) h)
        (slot_info_join_round_trip p h) (λ b. refl)
  encode-decode (reject_join p) h =
      decoded _ _ reject_join p _ _ (serialize-framed crc32 decodes (reject_join p) h)
        (reject_join_round_trip p h) (λ b. refl)
  encode-decode (player_info p) h =
      decoded _ _ player_info p _ _ (serialize-framed crc32 decodes (player_info p) h)
        (player_info_round_trip p h) (λ b. refl)
  encode-decode (player_left p) h =
      decoded _ _ player_left p _ _ (serialize-framed crc32 decodes (player_left p) h)
        (player_left_round_trip p h) (λ b. refl)
  encode-decode (player_loaded p) h =
      decoded _ _ player_loaded p _ _ (serialize-framed crc32 decodes (player_loaded p) h)
        (player_loaded_round_trip p h) (λ b. refl)
  encode-decode (slot_info p) h =
      decoded _ _ slot_info p _ _ (serialize-framed crc32 decodes (slot_info p) h)
        (slot_info_round_trip p h) (λ b. refl)
  encode-decode count_down_start h =
      decoded _ _ (λ _. count_down_start) tt _ _ (serialize-framed crc32 decodes count_down_start h)
        count_down_start_round_trip (λ b. refl)
  encode-decode count_down_end h =
      decoded _ _ (λ _. count_down_end) tt _ _ (serialize-framed crc32 decodes count_down_end h)
        count_down_end_round_trip (λ b. refl)
  encode-decode (time_slot p) h =
      decoded _ _ time_slot p _ _ (serialize-framed crc32 decodes (time_slot p) h)
        (time_slot_round_trip crc32 p h) (time_slot-new_packet p.fragment)
  encode-decode (desync p) h =
      decoded _ _ desync p _ _ (serialize-framed crc32 decodes (desync p) h) (desync_round_trip p h)
        (λ b. refl)
  encode-decode (message_relay p) h =
      decoded _ _ message_relay p _ _ (serialize-framed crc32 decodes (message_relay p) h)
        (message_relay_round_trip p h) (λ b. refl)
  encode-decode (start_lag p) h =
      decoded _ _ start_lag p _ _ (serialize-framed crc32 decodes (start_lag p) h)
        (start_lag_round_trip p h) (λ b. refl)
  encode-decode (stop_lag p) h =
      decoded _ _ stop_lag p _ _ (serialize-framed crc32 decodes (stop_lag p) h)
        (stop_lag_round_trip p h) (λ b. refl)
  encode-decode (game_over p) h =
      decoded _ _ game_over p _ _ (serialize-framed crc32 decodes (game_over p) h)
        (game_over_round_trip p h) (λ b. refl)
  encode-decode (player_kicked p) h =
      decoded _ _ player_kicked p _ _ (serialize-framed crc32 decodes (player_kicked p) h)
        (player_kicked_round_trip p h) (λ b. refl)
  encode-decode leave_ack h =
      decoded _ _ (λ _. leave_ack) tt _ _ (serialize-framed crc32 decodes leave_ack h)
        leave_ack_round_trip (λ b. refl)
  encode-decode (join p) h =
      decoded _ _ join p _ _ (serialize-framed crc32 decodes (join p) h) (join_round_trip p h)
        (λ b. refl)
  encode-decode (leave p) h =
      decoded _ _ leave p _ _ (serialize-framed crc32 decodes (leave p) h) (leave_round_trip p h)
        (λ b. refl)
  encode-decode game_loaded h =
      decoded _ _ (λ _. game_loaded) tt _ _ (serialize-framed crc32 decodes game_loaded h)
        game_loaded_round_trip (λ b. refl)
  encode-decode (game_action p) h =
      decoded _ _ game_action p _ _ (serialize-framed crc32 decodes (game_action p) h)
        (game_action_round_trip crc32 p h) (λ b. refl)
  encode-decode (time_slot_ack p) h =
      decoded _ _ time_slot_ack p _ _ (serialize-framed crc32 decodes (time_slot_ack p) h)
        (time_slot_ack_round_trip p h) (λ b. refl)
  encode-decode (message p) h =
      decoded _ _ message p _ _ (serialize-framed crc32 decodes (message p) h)
        (message_round_trip p h) (λ b. refl)
  encode-decode drop_laggers h =
      decoded _ _ (λ _. drop_laggers) tt _ _ (serialize-framed crc32 decodes drop_laggers h)
        drop_laggers_round_trip (λ b. refl)
  encode-decode (search_game p) h =
      decoded _ _ search_game p _ _ (serialize-framed crc32 decodes (search_game p) h)
        (search_game_round_trip p h) (λ b. refl)
  encode-decode (game_info p) h =
      decoded _ _ game_info p _ _ (serialize-framed crc32 decodes (game_info p) h)
        (game_info_round_trip p h) (λ b. refl)
  encode-decode (create_game p) h =
      decoded _ _ create_game p _ _ (serialize-framed crc32 decodes (create_game p) h)
        (create_game_round_trip p h) (λ b. refl)
  encode-decode (refresh_game p) h =
      decoded _ _ refresh_game p _ _ (serialize-framed crc32 decodes (refresh_game p) h)
        (refresh_game_round_trip p h) (λ b. refl)
  encode-decode (decreate_game p) h =
      decoded _ _ decreate_game p _ _ (serialize-framed crc32 decodes (decreate_game p) h)
        (decreate_game_round_trip p h) (λ b. refl)
  encode-decode (peer_message p) h =
      decoded _ _ peer_message p _ _ (serialize-framed crc32 decodes (peer_message p) h)
        (peer_message_round_trip p h) (λ b. refl)
  encode-decode (peer_ping p) h =
      decoded _ _ peer_ping p _ _ (serialize-framed crc32 decodes (peer_ping p) h)
        (peer_ping_round_trip p h.0 h.1 h.2) (λ b. refl)
  encode-decode (peer_pong p) h =
      decoded _ _ peer_pong p _ _ (serialize-framed crc32 decodes (peer_pong p) h)
        (peer_pong_round_trip p h) (λ b. refl)
  encode-decode (peer_connect p) h =
      decoded _ _ peer_connect p _ _ (serialize-framed crc32 decodes (peer_connect p) h)
        (peer_connect_round_trip p h) (λ b. refl)
  encode-decode (peer_set p) h =
      decoded _ _ peer_set p _ _ (serialize-framed crc32 decodes (peer_set p) h)
        (peer_set_round_trip p h) (λ b. refl)
  encode-decode (map_check p) h =
      decoded _ _ map_check p _ _ (serialize-framed crc32 decodes (map_check p) h)
        (map_check_round_trip p h) (λ b. refl)
  encode-decode (start_download p) h =
      decoded _ _ start_download p _ _ (serialize-framed crc32 decodes (start_download p) h)
        (start_download_round_trip p h) (λ b. refl)
  encode-decode (map_state p) h =
      decoded _ _ map_state p _ _ (serialize-framed crc32 decodes (map_state p) h)
        (map_state_round_trip p h) (λ b. refl)
  encode-decode (map_part p) h =
      decoded _ _ map_part p _ _ (serialize-framed crc32 decodes (map_part p) h)
        (map_part_round_trip crc32 p h) (λ b. refl)
  encode-decode (map_part_ok p) h =
      decoded _ _ map_part_ok p _ _ (serialize-framed crc32 decodes (map_part_ok p) h)
        (map_part_ok_round_trip p h) (λ b. refl)
  encode-decode map_part_error h =
      decoded _ _ (λ _. map_part_error) tt _ _ (serialize-framed crc32 decodes map_part_error h)
        map_part_error_round_trip (λ b. refl)
  encode-decode (pong p) h =
      decoded _ _ pong p _ _ (serialize-framed crc32 decodes (pong p) h) (pong_round_trip p h)
        (λ b. refl)
  encode-decode (player_extra p) h =
      decoded _ _ player_extra p _ _ (serialize-framed crc32 decodes (player_extra p) h)
        (player_extra_round_trip decodes p h) (λ b. refl)
  encode-decode (unknown p) h =
      decoded _ _ unknown p _ _ (serialize-framed crc32 decodes (unknown p) h)
        (unknown_round_trip p h.1) (λ b. rw h.0 refl)
