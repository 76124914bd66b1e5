-- ===== src/W3gs/Guards.antt =====
-- protocol/w3gs/packets.go: the guards of the Deserialize methods before they read.
use gowarcraft.Prelude.{ℕ}
use gowarcraft.Protocol.Go.{Bytes, NoPanic}
use gowarcraft.W3gs.Header.{deserialize_unknown}
use gowarcraft.W3gs.Header.UnknownRoundTrip.{deserialize_unknown-NoPanic}
use gowarcraft.W3gs.Chat.{deserialize_message}
use gowarcraft.W3gs.Chat.Safety.{deserialize_message-NoPanic}
use gowarcraft.W3gs.Join.{deserialize_join, deserialize_player_info}
use gowarcraft.W3gs.Join.Safety.{deserialize_join-NoPanic, deserialize_player_info-NoPanic}
use gowarcraft.W3gs.Lag.{deserialize_start_lag}
use gowarcraft.W3gs.Lag.Safety.{deserialize_start_lag-NoPanic}
use gowarcraft.W3gs.Action.{deserialize_game_action, deserialize_desync}
use gowarcraft.W3gs.Action.Safety.{deserialize_game_action-NoPanic, deserialize_desync-NoPanic}
use gowarcraft.W3gs.MapData.{deserialize_map_check, deserialize_map_part}
use gowarcraft.W3gs.MapData.Safety.{deserialize_map_check-NoPanic, deserialize_map_part-NoPanic}

-- Deserialize of a Message, Join, PlayerInfo, StartLag, GameAction, Desync, MapCheck, MapPart
-- and UnknownPacket does not panic, whatever bytes the buffer holds and whatever the checksum
-- function is.
pub deserialize-NoPanic :
    (crc32 : Bytes → ℕ) (b : Bytes)
    → NoPanic (deserialize_message b)
      × NoPanic (deserialize_join b)
      × NoPanic (deserialize_player_info b)
      × NoPanic (deserialize_start_lag b)
      × NoPanic (deserialize_game_action crc32 b)
      × NoPanic (deserialize_desync b)
      × NoPanic (deserialize_map_check b)
      × NoPanic (deserialize_map_part crc32 b)
      × NoPanic (deserialize_unknown b)
deserialize-NoPanic crc32 b = (
  deserialize_message-NoPanic b,
  deserialize_join-NoPanic b,
  deserialize_player_info-NoPanic b,
  deserialize_start_lag-NoPanic b,
  deserialize_game_action-NoPanic crc32 b,
  deserialize_desync-NoPanic b,
  deserialize_map_check-NoPanic b,
  deserialize_map_part-NoPanic crc32 b,
  deserialize_unknown-NoPanic b,
)
