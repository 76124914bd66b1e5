-- ===== src/W3gs/Codec/Framing.antt =====
-- The packets that can be sent, and the frames that they are written in.
use gowarcraft.Prelude.{
  ℕ, ◌+◌, ◌==◌, ◌≡◌, Bool, true, none, [], length, if◌then◌else◌, IsU16, IsU32, refl,
}
use gowarcraft.Protocol.Go.{Bytes, and_then}
use gowarcraft.Protocol.Buffer.{buffer_calls}
use gowarcraft.Dict.{lookup}
use gowarcraft.W3gs.Pid
use gowarcraft.W3gs.Header.{serialize_unknown}
use gowarcraft.W3gs.Header.RoundTrip.{framed, framed-packet_bytes}
use gowarcraft.W3gs.Extra.RoundTrip.{ValidPlayerExtra, serialize_player_extra-framed}
use gowarcraft.W3gs.Ping.{serialize_ping, serialize_peer_ping, serialize_peer_pong, serialize_pong}
use gowarcraft.W3gs.Slots.RoundTrip.{
  ValidSlotInfoJoin, serialize_slot_info_join-framed, ValidSlotInfo, serialize_slot_info-framed,
}
use gowarcraft.W3gs.Membership.{
  serialize_reject_join, serialize_player_left, serialize_player_kicked, serialize_leave_ack,
  serialize_leave,
}
use gowarcraft.W3gs.Membership.RoundTrip.{ValidRejectJoin, ValidPlayerLeft, ValidLeave}
use gowarcraft.W3gs.Join.RoundTrip.{
  ValidPlayerInfo, serialize_player_info-framed, ValidJoin, serialize_join-framed,
}
use gowarcraft.W3gs.Loading.{
  serialize_player_loaded, serialize_count_down_start, serialize_count_down_end,
  serialize_game_over, serialize_game_loaded,
}
use gowarcraft.W3gs.Loading.RoundTrip.{ValidPlayerLoaded, ValidGameOver}
use gowarcraft.W3gs.TimeSlot.RoundTrip.{ValidTimeSlot, serialize_time_slot-framed}
use gowarcraft.W3gs.Action.{serialize_time_slot_ack}
use gowarcraft.W3gs.Action.RoundTrip.{
  ValidDesync, serialize_desync-framed, ValidGameAction, serialize_game_action-framed,
  ValidTimeSlotAck,
}
use gowarcraft.W3gs.Chat.RoundTrip.{ValidMessage, serialize_message-framed}
use gowarcraft.W3gs.Lag.{serialize_stop_lag, serialize_lag_player, serialize_drop_laggers}
use gowarcraft.W3gs.Lag.RoundTrip.{ValidStartLag, serialize_start_lag-framed, ValidLagPlayer}
use gowarcraft.W3gs.Listing.{
  serialize_search_game, serialize_create_game, serialize_refresh_game, serialize_decreate_game,
}
use gowarcraft.W3gs.Listing.RoundTrip.{
  ValidSearchGame, ValidCreateGame, ValidRefreshGame, ValidDecreateGame,
}
use gowarcraft.W3gs.GameInfo.RoundTrip.{ValidGameInfo, serialize_game_info-framed}
use gowarcraft.W3gs.Peer.{serialize_peer_connect, serialize_peer_set}
use gowarcraft.W3gs.Peer.RoundTrip.{ValidPeerConnect, ValidPeerSet}
use gowarcraft.W3gs.MapData.RoundTrip.{
  ValidMapCheck, serialize_map_check-framed, ValidMapPart, serialize_map_part-framed,
}
use gowarcraft.W3gs.Transfer.{
  serialize_start_download, serialize_map_state, serialize_map_part_ok, serialize_map_part_error,
}
use gowarcraft.W3gs.Transfer.RoundTrip.{ValidStartDownload, ValidMapState, ValidMapPartOk}
use gowarcraft.W3gs.Packets.{
  Packet, serialize, default_factory, ping, slot_info_join, reject_join, player_info, player_left,
  player_loaded, slot_info, count_down_start, count_down_end, time_slot, desync, message_relay,
  start_lag, stop_lag, game_over, player_kicked, leave_ack, join, leave, game_loaded, game_action,
  time_slot_ack, message, drop_laggers, search_game, game_info, create_game, refresh_game,
  decreate_game, peer_message, peer_ping, peer_pong, peer_connect, peer_set, map_check,
  start_download, map_state, map_part, map_part_ok, map_part_error, pong, player_extra, unknown,
}

-- The identifier of a packet.
abbrev pub pid_of : Packet → ℕ
pid_of (ping p) = Pid.ping_from_host
pid_of (slot_info_join p) = Pid.slot_info_join
pid_of (reject_join p) = Pid.reject_join
pid_of (player_info p) = Pid.player_info
pid_of (player_left p) = Pid.player_left
pid_of (player_loaded p) = Pid.player_loaded
pid_of (slot_info p) = Pid.slot_info
pid_of count_down_start = Pid.count_down_start
pid_of count_down_end = Pid.count_down_end
pid_of (time_slot p) = if p.fragment then Pid.incoming_action2 else Pid.incoming_action
pid_of (desync p) = Pid.desync
pid_of (message_relay p) = Pid.chat_from_host
pid_of (start_lag p) = Pid.start_lag
pid_of (stop_lag p) = Pid.stop_lag
pid_of (game_over p) = Pid.game_over
pid_of (player_kicked p) = Pid.player_kicked
pid_of leave_ack = Pid.leave_ack
pid_of (join p) = Pid.req_join
pid_of (leave p) = Pid.leave_req
pid_of game_loaded = Pid.game_loaded_self
pid_of (game_action p) = Pid.outgoing_action
pid_of (time_slot_ack p) = Pid.outgoing_keep_alive
pid_of (message p) = Pid.chat_to_host
pid_of drop_laggers = Pid.drop_req
pid_of (search_game p) = Pid.search_game
pid_of (game_info p) = Pid.game_info
pid_of (create_game p) = Pid.create_game
pid_of (refresh_game p) = Pid.refresh_game
pid_of (decreate_game p) = Pid.decreate_game
pid_of (peer_message p) = Pid.chat_from_others
pid_of (peer_ping p) = Pid.ping_from_others
pid_of (peer_pong p) = Pid.pong_to_others
pid_of (peer_connect p) = Pid.client_info
pid_of (peer_set p) = Pid.peer_set
pid_of (map_check p) = Pid.map_check
pid_of (start_download p) = Pid.start_download
pid_of (map_state p) = Pid.map_size
pid_of (map_part p) = Pid.map_part
pid_of (map_part_ok p) = Pid.map_part_ok
pid_of map_part_error = Pid.map_part_error
pid_of (pong p) = Pid.pong_to_host
pid_of (player_extra p) = Pid.player_extra
pid_of (unknown p) = p.id

module _ (crc32 : Bytes → ℕ) (decodes : ℕ → Bytes → Bool) where
  -- The fields fit, and the packet its sixteen bits of size; an UnknownPacket has an identifier that
  -- is not in the factory.
  abbrev pub Valid : Packet → Type 0
  Valid (ping p) = IsU32 p.payload
  Valid (slot_info_join p) = ValidSlotInfoJoin p
  Valid (reject_join p) = ValidRejectJoin p
  Valid (player_info p) = ValidPlayerInfo p
  Valid (player_left p) = ValidPlayerLeft p
  Valid (player_loaded p) = ValidPlayerLoaded p
  Valid (slot_info p) = ValidSlotInfo p
  Valid count_down_start = Unit
  Valid count_down_end = Unit
  Valid (time_slot p) = ValidTimeSlot p
  Valid (desync p) = ValidDesync p
  Valid (message_relay p) = ValidMessage p
  Valid (start_lag p) = ValidStartLag p
  Valid (stop_lag p) = ValidLagPlayer p
  Valid (game_over p) = ValidGameOver p
  Valid (player_kicked p) = ValidLeave p
  Valid leave_ack = Unit
  Valid (join p) = ValidJoin p
  Valid (leave p) = ValidLeave p
  Valid game_loaded = Unit
  Valid (game_action p) = ValidGameAction p
  Valid (time_slot_ack p) = ValidTimeSlotAck p
  Valid (message p) = ValidMessage p
  Valid drop_laggers = Unit
  Valid (search_game p) = ValidSearchGame p
  Valid (game_info p) = ValidGameInfo p
  Valid (create_game p) = ValidCreateGame p
  Valid (refresh_game p) = ValidRefreshGame p
  Valid (decreate_game p) = ValidDecreateGame p
  Valid (peer_message p) = ValidMessage p
  Valid (peer_ping p) = IsU32 p.payload × IsU32 p.peer_set × IsU32 p.game_ticks
  Valid (peer_pong p) = IsU32 p.payload
  Valid (peer_connect p) = ValidPeerConnect p
  Valid (peer_set p) = ValidPeerSet p
  Valid (map_check p) = ValidMapCheck p
  Valid (start_download p) = ValidStartDownload p
  Valid (map_state p) = ValidMapState p
  Valid (map_part p) = ValidMapPart p
  Valid (map_part_ok p) = ValidMapPartOk p
  Valid map_part_error = Unit
  Valid (pong p) = IsU32 p.payload
  Valid (player_extra p) = ValidPlayerExtra decodes p
  Valid (unknown p) =
      (lookup ◌==◌ p.id (default_factory crc32 decodes) ≡ none) × IsU16 (4 + length p.blob)

  pub serialize-framed : (p : Packet) → Valid p → framed (pid_of p) (serialize crc32 p []) ≡ true
  unfolding serialize buffer_calls serialize_lag_player and_then serialize_unknown serialize_ping
      serialize_reject_join serialize_player_left serialize_player_loaded serialize_count_down_start
      serialize_count_down_end serialize_stop_lag serialize_game_over serialize_player_kicked
      serialize_leave_ack serialize_leave serialize_game_loaded serialize_time_slot_ack
      serialize_drop_laggers serialize_search_game serialize_create_game serialize_refresh_game
      serialize_decreate_game serialize_peer_ping serialize_peer_pong serialize_peer_connect
      serialize_peer_set serialize_start_download serialize_map_state serialize_map_part_ok
      serialize_map_part_error serialize_pong
  serialize-framed (ping p) h = refl
  serialize-framed (slot_info_join p) h = serialize_slot_info_join-framed p h
  serialize-framed (reject_join p) h = refl
  serialize-framed (player_info p) h = serialize_player_info-framed p h
  serialize-framed (player_left p) h = refl
  serialize-framed (player_loaded p) h = refl
  serialize-framed (slot_info p) h = serialize_slot_info-framed p h
  serialize-framed count_down_start h = refl
  serialize-framed count_down_end h = refl
  serialize-framed (time_slot p) h = serialize_time_slot-framed crc32 p h
  serialize-framed (desync p) h = serialize_desync-framed p h
  serialize-framed (message_relay p) h = (serialize_message-framed p h).1
  serialize-framed (start_lag p) h = serialize_start_lag-framed p h
  serialize-framed (stop_lag p) h = refl
  serialize-framed (game_over p) h = refl
  serialize-framed (player_kicked p) h = refl
  serialize-framed leave_ack h = refl
  serialize-framed (join p) h = serialize_join-framed p h
  serialize-framed (leave p) h = refl
  serialize-framed game_loaded h = refl
  serialize-framed (game_action p) h = serialize_game_action-framed crc32 p h
  serialize-framed (time_slot_ack p) h = refl
  serialize-framed (message p) h = (serialize_message-framed p h).0
  serialize-framed drop_laggers h = refl
  serialize-framed (search_game p) h = refl
  serialize-framed (game_info p) h = serialize_game_info-framed p h
  serialize-framed (create_game p) h = refl
  serialize-framed (refresh_game p) h = refl
  serialize-framed (decreate_game p) h = refl
  serialize-framed (peer_message p) h = (serialize_message-framed p h).2
  serialize-framed (peer_ping p) h = refl
  serialize-framed (peer_pong p) h = refl
  serialize-framed (peer_connect p) h = refl
  serialize-framed (peer_set p) h = refl
  serialize-framed (map_check p) h = serialize_map_check-framed p h
  serialize-framed (start_download p) h = refl
  serialize-framed (map_state p) h = refl
  serialize-framed (map_part p) h = serialize_map_part-framed crc32 p h
  serialize-framed (map_part_ok p) h = refl
  serialize-framed map_part_error h = refl
  serialize-framed (pong p) h = refl
  serialize-framed (player_extra p) h = serialize_player_extra-framed decodes p h
  serialize-framed (unknown p) h = framed-packet_bytes p.id (4 + length p.blob) p.blob h.1 refl
