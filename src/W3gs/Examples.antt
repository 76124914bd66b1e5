-- ===== src/W3gs/Examples.antt =====
-- Concrete packets of a small game, on which the modules below evaluate the code.
mod RoundTrips
mod Failures
use gowarcraft.Prelude.{
  ℕ, zero, suc, ◌+◌, ◌*◌, ◌<◌, ◌≡◌, true, false, [], ◌∷◌, some, none, arith, refl,
}
use gowarcraft.Protocol.Go.{Bytes}
use gowarcraft.Protocol.Buffer.{SockAddr}
use gowarcraft.Protocol.Buffer.RoundTrip.{IsCString}
use gowarcraft.Protocol.Buffer.Address.{ValidSockAddr, inet_addr, no_addr}
use gowarcraft.W3gs.GameInfo.{GameInfo, GameSettings, GameVersion}
use gowarcraft.W3gs.Slots.{SlotData, SlotInfo}
use gowarcraft.W3gs.TimeSlot.{PlayerAction, TimeSlot}

-- A checksum to stand for hash/crc32.
abbrev pub byte_sum : Bytes → ℕ
byte_sum [] = 0
byte_sum (b ∷ s) = b + 256 * byte_sum s

-- 192.168.0.1:6112
abbrev pub host_addr : SockAddr
host_addr = record { port = 6112; ip = some (192 ∷ 168 ∷ 0 ∷ 1 ∷ []) }

pub host_addr-Valid : ValidSockAddr host_addr
host_addr-Valid =
    inet_addr 6112 192 168 0 1 (omega arith) (omega arith) (omega arith) (omega arith) (omega arith)
      (omega arith)

-- "Bob"
abbrev pub bob : Bytes
bob = 66 ∷ 111 ∷ 98 ∷ []

pub bob-IsCString : IsCString bob
bob-IsCString = (omega arith, (omega arith, (omega arith, tt)))

abbrev pub zeros : ℕ → Bytes
zeros zero = []
zeros (suc n) = 0 ∷ zeros n

abbrev pub settings : GameSettings
settings = record {
  flags = 0x00064802;
  map_width = 116;
  map_height = 84;
  map_xoro = 0x12345678;
  map_path = 77 ∷ 97 ∷ 112 ∷ [];
  host_name = bob;
  map_sha1 = zeros 20;
}

abbrev pub game : GameInfo
game = record {
  game_version = record { product = 0x57335850; version = 26 };
  host_counter = 1;
  entry_key = 0xCAFEBABE;
  game_name = 103 ∷ 97 ∷ 109 ∷ 101 ∷ [];
  game_settings = settings;
  slots_total = 12;
  game_flags = 9;
  slots_used = 1;
  slots_available = 12;
  uptime_sec = 3;
  game_port = 6112;
}

abbrev pub slot : SlotData
slot = record {
  player_id = 1;
  download_status = 100;
  slot_status = 2;
  computer = true;
  team = 0;
  color = 3;
  race = 4;
  computer_type = 1;
  handicap = 100;
}

abbrev pub slots : SlotInfo
slots = record { slots = slot ∷ slot ∷ []; random_seed = 77; slot_layout = 3; num_players = 2 }

-- Two actions, the second one empty.
abbrev pub turn : TimeSlot
turn = record {
  fragment = false;
  time_increment_ms = 100;
  actions =
      record { player_id = 1; content = 16 ∷ 255 ∷ [] }
      ∷ record { player_id = 2; content = [] }
      ∷ [];
}
