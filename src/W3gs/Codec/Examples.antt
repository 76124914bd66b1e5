-- ===== src/W3gs/Codec/Examples.antt =====
-- A stream of six packets.
use gowarcraft.Prelude.{ℕ, ◌≡◌, Bool, false, some, List, [], ◌∷◌, All, arith, refl}
use gowarcraft.Protocol.Go.{Bytes, done, and_then}
use gowarcraft.Protocol.Buffer.{write_uint8, write_uint16, write_uint32}
use gowarcraft.W3gs.Ping.{serialize_ping}
use gowarcraft.W3gs.Examples.{byte_sum, bob, bob-IsCString, settings, game, turn}
use gowarcraft.W3gs.GameInfo.{settings_size}
use gowarcraft.W3gs.GameInfo.RoundTrip.{ValidGameSettings, ValidGameInfo}
use gowarcraft.W3gs.TimeSlot.RoundTrip.{actions_bytes, ValidTimeSlot}
use gowarcraft.W3gs.Chat.{Message}
use gowarcraft.W3gs.Chat.RoundTrip.{ValidMessage, extra}
use gowarcraft.W3gs.Packets.{
  game_info, time_slot, Packet, default_factory, ping, count_down_end, message, unknown, serialize,
}
use gowarcraft.W3gs.Codec.{eof, unexpected_eof, encode, read, failed}
use gowarcraft.W3gs.Codec.Framing.{Valid}
use gowarcraft.W3gs.Codec.Streams.{write_all, read_all, read_all-write_all}
use gowarcraft.W3gs.Codec.Cut.{read-cut}

abbrev to_allies : Message
to_allies = record {
  recipient_ids = 2 ∷ 3 ∷ [];
  sender_id = 1;
  type = 0x20;
  scope = 1;
  new_val = 0;
  content = bob;
}

to_allies-Valid : ValidMessage to_allies
to_allies-Valid = record {
  tail = extra (2 ∷ 3 ∷ []) 1 1 bob (omega arith) bob-IsCString;
  recipients = omega arith;
  fits = omega arith;
}

settings-Valid : ValidGameSettings settings
settings-Valid = record {
  flags = omega arith;
  map_width = omega arith;
  map_height = omega arith;
  map_xoro = omega arith;
  map_path = ground arith;
  map_path_bytes = ground arith;
  host_name = bob-IsCString;
  host_name_bytes = ground arith;
  map_sha1 = refl;
  map_sha1_bytes = ground arith;
}

game-Valid : ValidGameInfo game
unfolding settings_size
game-Valid = record {
  product = omega arith;
  version = omega arith;
  host_counter = omega arith;
  entry_key = omega arith;
  game_name = ground arith;
  game_settings = settings-Valid;
  slots_total = omega arith;
  game_flags = omega arith;
  slots_used = omega arith;
  slots_available = omega arith;
  uptime_sec = omega arith;
  game_port = omega arith;
  fits = omega arith;
}

turn-Valid : ValidTimeSlot turn
unfolding actions_bytes
turn-Valid = record { time_increment_ms = omega arith; actions = ground arith; fits = ground arith }

-- A protobuf library that decodes nothing.
abbrev never : ℕ → Bytes → Bool
never type raw = false

abbrev packets : List Packet
packets =
    message to_allies
    ∷ game_info game
    ∷ time_slot turn
    ∷ count_down_end
    ∷ unknown (record { id = 0x99; blob = 1 ∷ 2 ∷ [] })
    ∷ ping (record { payload = 77 })
    ∷ []

packets-Valid : All (Valid byte_sum never) packets
unfolding default_factory
packets-Valid =
    (to_allies-Valid, (game-Valid, (turn-Valid, (tt, ((refl, omega arith), (omega arith, tt))))))

read_all-write_all_example :
    (stream : Bytes) × (write_all byte_sum never packets [] ≡ done tt stream)
    × (read_all byte_sum never 7 stream ≡ some (packets, eof))
read_all-write_all_example = read_all-write_all byte_sum never packets packets-Valid

abbrev ping_bytes : Bytes
ping_bytes = 247 ∷ 1 ∷ 8 ∷ 0 ∷ 77 ∷ 0 ∷ 0 ∷ 0 ∷ []

read-cut_example :
    read (default_factory byte_sum never) (247 ∷ 1 ∷ 8 ∷ 0 ∷ 77 ∷ []) ≡ failed unexpected_eof 5 []
unfolding encode serialize serialize_ping and_then write_uint8 write_uint16 write_uint32
read-cut_example =
    read-cut byte_sum never (ping (record { payload = 77 })) ping_bytes 5 (omega arith) refl
      (omega arith)
