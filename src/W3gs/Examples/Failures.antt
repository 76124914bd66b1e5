-- ===== src/W3gs/Examples/Failures.antt =====
-- Packets that are cut off, too long for their content or made up, read at concrete values.
use gowarcraft.Prelude.{◌≡◌, [], ◌∷◌, arith}
use gowarcraft.Protocol.Go.{Bytes, NoPanic, panic}
use gowarcraft.W3gs.Guards.{deserialize-NoPanic}
use gowarcraft.Protocol.Buffer.RoundTrip.{le16}
use gowarcraft.W3gs.Examples.{byte_sum}
use gowarcraft.W3gs.Pid
use gowarcraft.W3gs.Header.{deserialize_unknown}
use gowarcraft.W3gs.Header.RoundTrip.{packet_bytes}
use gowarcraft.W3gs.Chat.{deserialize_message}
use gowarcraft.W3gs.Join.{deserialize_join, deserialize_player_info}
use gowarcraft.W3gs.Lag.{deserialize_start_lag}
use gowarcraft.W3gs.Action.{deserialize_game_action, deserialize_desync}
use gowarcraft.W3gs.MapData.{deserialize_map_check, deserialize_map_part}
use gowarcraft.W3gs.TimeSlot.{deserialize_time_slot}
use gowarcraft.W3gs.TimeSlot.Panic.{deserialize_time_slot_panics, short_packet}
use gowarcraft.W3gs.Slots.{deserialize_slot_info}
use gowarcraft.W3gs.Slots.Panic.{deserialize_slot_info_panics}

-- 200 recipients in a packet of eight bytes.
abbrev cut_message : Bytes
cut_message = 247 ∷ 40 ∷ 8 ∷ 0 ∷ 200 ∷ 1 ∷ 16 ∷ 0 ∷ []

deserialize-NoPanic_example :
    NoPanic (deserialize_message cut_message)
    × NoPanic (deserialize_join cut_message)
    × NoPanic (deserialize_player_info cut_message)
    × NoPanic (deserialize_start_lag cut_message)
    × NoPanic (deserialize_game_action byte_sum cut_message)
    × NoPanic (deserialize_desync cut_message)
    × NoPanic (deserialize_map_check cut_message)
    × NoPanic (deserialize_map_part byte_sum cut_message)
    × NoPanic (deserialize_unknown cut_message)
deserialize-NoPanic_example = deserialize-NoPanic byte_sum cut_message

deserialize_time_slot_panics_example :
    deserialize_time_slot byte_sum (short_packet byte_sum Pid.incoming_action 100 1 3) ≡ panic
deserialize_time_slot_panics_example =
    deserialize_time_slot_panics byte_sum Pid.incoming_action 100 1 3 (omega arith) (omega arith)

deserialize_slot_info_panics_example :
    deserialize_slot_info (packet_bytes Pid.slot_info 13 (le16 7 (2 ∷ 1 ∷ 2 ∷ 3 ∷ 4 ∷ 5 ∷ 6 ∷ [])))
    ≡ panic
deserialize_slot_info_panics_example = deserialize_slot_info_panics 1 1 2 3 4 5 6
