-- ===== src/W3gs/Packets.antt =====
-- protocol/w3gs/w3gs.go and factory.go: the packets together, and the factory that makes them.
use gowarcraft.Prelude.{ℕ, ◌==◌, Bool, Option, some, none, List, [], ◌∷◌}
use gowarcraft.Protocol.Go.{Bytes, Go, ◌>>=◌, return}
use gowarcraft.Dict.{lookup}
use gowarcraft.W3gs.Header.{UnknownPacket, serialize_unknown, deserialize_unknown}
use gowarcraft.W3gs.Pid
use gowarcraft.W3gs.Extra.{PlayerExtra, serialize_player_extra, deserialize_player_extra}
use gowarcraft.W3gs.Ping.{
  Ping, serialize_ping, deserialize_ping, PeerPing, serialize_peer_ping, deserialize_peer_ping,
  serialize_peer_pong, serialize_pong,
}
use gowarcraft.W3gs.Slots.{
  SlotInfoJoin, serialize_slot_info_join, deserialize_slot_info_join, SlotInfo, serialize_slot_info,
  deserialize_slot_info,
}
use gowarcraft.W3gs.Membership.{
  RejectJoin, serialize_reject_join, deserialize_reject_join, PlayerLeft, serialize_player_left,
  deserialize_player_left, Leave, serialize_player_kicked, deserialize_leave, serialize_leave_ack,
  deserialize_leave_ack, serialize_leave,
}
use gowarcraft.W3gs.Join.{
  PlayerInfo, serialize_player_info, deserialize_player_info, Join, serialize_join,
  deserialize_join,
}
use gowarcraft.W3gs.Loading.{
  PlayerLoaded, serialize_player_loaded, deserialize_player_loaded, serialize_count_down_start,
  deserialize_count_down_start, serialize_count_down_end, deserialize_count_down_end, GameOver,
  serialize_game_over, deserialize_game_over, serialize_game_loaded, deserialize_game_loaded,
}
use gowarcraft.W3gs.TimeSlot.{TimeSlot, serialize_time_slot, deserialize_time_slot}
use gowarcraft.W3gs.Action.{
  Desync, serialize_desync, deserialize_desync, GameAction, serialize_game_action,
  deserialize_game_action, TimeSlotAck, serialize_time_slot_ack, deserialize_time_slot_ack,
}
use gowarcraft.W3gs.Chat.{
  Message, serialize_message_relay, deserialize_message, serialize_message, serialize_peer_message,
}
use gowarcraft.W3gs.Lag.{
  StartLag, serialize_start_lag, deserialize_start_lag, LagPlayer, serialize_stop_lag,
  deserialize_stop_lag, serialize_drop_laggers, deserialize_drop_laggers,
}
use gowarcraft.W3gs.Listing.{
  SearchGame, serialize_search_game, deserialize_search_game, CreateGame, serialize_create_game,
  deserialize_create_game, RefreshGame, serialize_refresh_game, deserialize_refresh_game,
  DecreateGame, serialize_decreate_game, deserialize_decreate_game,
}
use gowarcraft.W3gs.GameInfo.{GameInfo, serialize_game_info, deserialize_game_info}
use gowarcraft.W3gs.Peer.{
  PeerConnect, serialize_peer_connect, deserialize_peer_connect, PeerSet, serialize_peer_set,
  deserialize_peer_set,
}
use gowarcraft.W3gs.MapData.{
  MapCheck, serialize_map_check, deserialize_map_check, MapPart, serialize_map_part,
  deserialize_map_part,
}
use gowarcraft.W3gs.Transfer.{
  StartDownload, serialize_start_download, deserialize_start_download, MapState,
  serialize_map_state, deserialize_map_state, MapPartOk, serialize_map_part_ok,
  deserialize_map_part_ok, serialize_map_part_error, deserialize_map_part_error,
}

-- The interface Packet.
pub data Packet : Type 0 where
  ping : Ping → Packet
  slot_info_join : SlotInfoJoin → Packet
  reject_join : RejectJoin → Packet
  player_info : PlayerInfo → Packet
  player_left : PlayerLeft → Packet
  player_loaded : PlayerLoaded → Packet
  slot_info : SlotInfo → Packet
  count_down_start : Packet
  count_down_end : Packet
  time_slot : TimeSlot → Packet
  desync : Desync → Packet
  message_relay : Message → Packet
  start_lag : StartLag → Packet
  stop_lag : LagPlayer → Packet
  game_over : GameOver → Packet
  player_kicked : Leave → Packet
  leave_ack : Packet
  join : Join → Packet
  leave : Leave → Packet
  game_loaded : Packet
  game_action : GameAction → Packet
  time_slot_ack : TimeSlotAck → Packet
  message : Message → Packet
  drop_laggers : Packet
  search_game : SearchGame → Packet
  game_info : GameInfo → Packet
  create_game : CreateGame → Packet
  refresh_game : RefreshGame → Packet
  decreate_game : DecreateGame → Packet
  peer_message : Message → Packet
  peer_ping : PeerPing → Packet
  peer_pong : Ping → Packet
  peer_connect : PeerConnect → Packet
  peer_set : PeerSet → Packet
  map_check : MapCheck → Packet
  start_download : StartDownload → Packet
  map_state : MapState → Packet
  map_part : MapPart → Packet
  map_part_ok : MapPartOk → Packet
  map_part_error : Packet
  pong : Ping → Packet
  player_extra : PlayerExtra → Packet
  unknown : UnknownPacket → Packet

-- Deserialize of a new packet.
abbrev pub packet_of {ℓ} : {A : Type ℓ} → (A → Packet) → Go A → Go Packet
packet_of c m = m >>= λ p. return (c p)

abbrev pub MapFactory : Type 0
MapFactory = List (ℕ × Go Packet)

module _ (crc32 : Bytes → ℕ) where
  unfoldable pub serialize : Packet → Go (Unit {0})
  serialize (ping p) = serialize_ping p
  serialize (slot_info_join p) = serialize_slot_info_join p
  serialize (reject_join p) = serialize_reject_join p
  serialize (player_info p) = serialize_player_info p
  serialize (player_left p) = serialize_player_left p
  serialize (player_loaded p) = serialize_player_loaded p
  serialize (slot_info p) = serialize_slot_info p
  serialize count_down_start = serialize_count_down_start tt
  serialize count_down_end = serialize_count_down_end tt
  serialize (time_slot p) = serialize_time_slot crc32 p
  serialize (desync p) = serialize_desync p
  serialize (message_relay p) = serialize_message_relay p
  serialize (start_lag p) = serialize_start_lag p
  serialize (stop_lag p) = serialize_stop_lag p
  serialize (game_over p) = serialize_game_over p
  serialize (player_kicked p) = serialize_player_kicked p
  serialize leave_ack = serialize_leave_ack tt
  serialize (join p) = serialize_join p
  serialize (leave p) = serialize_leave p
  serialize game_loaded = serialize_game_loaded tt
  serialize (game_action p) = serialize_game_action crc32 p
  serialize (time_slot_ack p) = serialize_time_slot_ack p
  serialize (message p) = serialize_message p
  serialize drop_laggers = serialize_drop_laggers tt
  serialize (search_game p) = serialize_search_game p
  serialize (game_info p) = serialize_game_info p
  serialize (create_game p) = serialize_create_game p
  serialize (refresh_game p) = serialize_refresh_game p
  serialize (decreate_game p) = serialize_decreate_game p
  serialize (peer_message p) = serialize_peer_message p
  serialize (peer_ping p) = serialize_peer_ping p
  serialize (peer_pong p) = serialize_peer_pong p
  serialize (peer_connect p) = serialize_peer_connect p
  serialize (peer_set p) = serialize_peer_set p
  serialize (map_check p) = serialize_map_check p
  serialize (start_download p) = serialize_start_download p
  serialize (map_state p) = serialize_map_state p
  serialize (map_part p) = serialize_map_part crc32 p
  serialize (map_part_ok p) = serialize_map_part_ok p
  serialize map_part_error = serialize_map_part_error tt
  serialize (pong p) = serialize_pong p
  serialize (player_extra p) = serialize_player_extra p
  serialize (unknown p) = serialize_unknown p

  -- DefaultFactory. Whether the protobuf library decodes a content is a parameter.
  unfoldable pub default_factory : (ℕ → Bytes → Bool) → MapFactory
  default_factory decodes =
      (Pid.ping_from_host, packet_of ping deserialize_ping)
      ∷ (Pid.slot_info_join, packet_of slot_info_join deserialize_slot_info_join)
      ∷ (Pid.reject_join, packet_of reject_join deserialize_reject_join)
      ∷ (Pid.player_info, packet_of player_info deserialize_player_info)
      ∷ (Pid.player_left, packet_of player_left deserialize_player_left)
      ∷ (Pid.player_loaded, packet_of player_loaded deserialize_player_loaded)
      ∷ (Pid.slot_info, packet_of slot_info deserialize_slot_info)
      ∷ (Pid.count_down_start, packet_of (λ _. count_down_start) deserialize_count_down_start)
      ∷ (Pid.count_down_end, packet_of (λ _. count_down_end) deserialize_count_down_end)
      ∷ (Pid.incoming_action, packet_of time_slot (deserialize_time_slot crc32))
      ∷ (Pid.desync, packet_of desync deserialize_desync)
      ∷ (Pid.chat_from_host, packet_of message_relay deserialize_message)
      ∷ (Pid.start_lag, packet_of start_lag deserialize_start_lag)
      ∷ (Pid.stop_lag, packet_of stop_lag deserialize_stop_lag)
      ∷ (Pid.game_over, packet_of game_over deserialize_game_over)
      ∷ (Pid.player_kicked, packet_of player_kicked deserialize_leave)
      ∷ (Pid.leave_ack, packet_of (λ _. leave_ack) deserialize_leave_ack)
      ∷ (Pid.req_join, packet_of join deserialize_join)
      ∷ (Pid.leave_req, packet_of leave deserialize_leave)
      ∷ (Pid.game_loaded_self, packet_of (λ _. game_loaded) deserialize_game_loaded)
      ∷ (Pid.outgoing_action, packet_of game_action (deserialize_game_action crc32))
      ∷ (Pid.outgoing_keep_alive, packet_of time_slot_ack deserialize_time_slot_ack)
      ∷ (Pid.chat_to_host, packet_of message deserialize_message)
      ∷ (Pid.drop_req, packet_of (λ _. drop_laggers) deserialize_drop_laggers)
      ∷ (Pid.search_game, packet_of search_game deserialize_search_game)
      ∷ (Pid.game_info, packet_of game_info deserialize_game_info)
      ∷ (Pid.create_game, packet_of create_game deserialize_create_game)
      ∷ (Pid.refresh_game, packet_of refresh_game deserialize_refresh_game)
      ∷ (Pid.decreate_game, packet_of decreate_game deserialize_decreate_game)
      ∷ (Pid.chat_from_others, packet_of peer_message deserialize_message)
      ∷ (Pid.ping_from_others, packet_of peer_ping deserialize_peer_ping)
      ∷ (Pid.pong_to_others, packet_of peer_pong deserialize_ping)
      ∷ (Pid.client_info, packet_of peer_connect deserialize_peer_connect)
      ∷ (Pid.peer_set, packet_of peer_set deserialize_peer_set)
      ∷ (Pid.map_check, packet_of map_check deserialize_map_check)
      ∷ (Pid.start_download, packet_of start_download deserialize_start_download)
      ∷ (Pid.map_size, packet_of map_state deserialize_map_state)
      ∷ (Pid.map_part, packet_of map_part (deserialize_map_part crc32))
      ∷ (Pid.map_part_ok, packet_of map_part_ok deserialize_map_part_ok)
      ∷ (Pid.map_part_error, packet_of (λ _. map_part_error) deserialize_map_part_error)
      ∷ (Pid.pong_to_host, packet_of pong deserialize_ping)
      ∷ (Pid.incoming_action2, packet_of time_slot (deserialize_time_slot crc32))
      ∷ (Pid.player_extra, packet_of player_extra (deserialize_player_extra decodes))
      ∷ []

abbrev pub or_unknown : Option (Go Packet) → Go Packet
or_unknown none = packet_of unknown deserialize_unknown
or_unknown (some m) = m

-- NewPacket, and then Deserialize.
abbrev pub new_packet : MapFactory → ℕ → Go Packet
new_packet f pid = or_unknown (lookup ◌==◌ pid f)
