-- ===== src/W3gs/Pid.antt =====
-- protocol/w3gs/const.go: the packet type identifiers.
use gowarcraft.Prelude.{ℕ}

abbrev pub ping_from_host : ℕ
ping_from_host = 0x01

abbrev pub slot_info_join : ℕ
slot_info_join = 0x04

abbrev pub reject_join : ℕ
reject_join = 0x05

abbrev pub player_info : ℕ
player_info = 0x06

abbrev pub player_left : ℕ
player_left = 0x07

abbrev pub player_loaded : ℕ
player_loaded = 0x08

abbrev pub slot_info : ℕ
slot_info = 0x09

abbrev pub count_down_start : ℕ
count_down_start = 0x0A

abbrev pub count_down_end : ℕ
count_down_end = 0x0B

abbrev pub incoming_action : ℕ
incoming_action = 0x0C

abbrev pub desync : ℕ
desync = 0x0D

abbrev pub chat_from_host : ℕ
chat_from_host = 0x0F

abbrev pub start_lag : ℕ
start_lag = 0x10

abbrev pub stop_lag : ℕ
stop_lag = 0x11

abbrev pub game_over : ℕ
game_over = 0x14

abbrev pub player_kicked : ℕ
player_kicked = 0x1C

abbrev pub leave_ack : ℕ
leave_ack = 0x1B

abbrev pub req_join : ℕ
req_join = 0x1E

abbrev pub leave_req : ℕ
leave_req = 0x21

abbrev pub game_loaded_self : ℕ
game_loaded_self = 0x23

abbrev pub outgoing_action : ℕ
outgoing_action = 0x26

abbrev pub outgoing_keep_alive : ℕ
outgoing_keep_alive = 0x27

abbrev pub chat_to_host : ℕ
chat_to_host = 0x28

abbrev pub drop_req : ℕ
drop_req = 0x29

abbrev pub search_game : ℕ
search_game = 0x2F

abbrev pub game_info : ℕ
game_info = 0x30

abbrev pub create_game : ℕ
create_game = 0x31

abbrev pub refresh_game : ℕ
refresh_game = 0x32

abbrev pub decreate_game : ℕ
decreate_game = 0x33

abbrev pub chat_from_others : ℕ
chat_from_others = 0x34

abbrev pub ping_from_others : ℕ
ping_from_others = 0x35

abbrev pub pong_to_others : ℕ
pong_to_others = 0x36

abbrev pub client_info : ℕ
client_info = 0x37

abbrev pub peer_set : ℕ
peer_set = 0x3B

abbrev pub map_check : ℕ
map_check = 0x3D

abbrev pub start_download : ℕ
start_download = 0x3F

abbrev pub map_size : ℕ
map_size = 0x42

abbrev pub map_part : ℕ
map_part = 0x43

abbrev pub map_part_ok : ℕ
map_part_ok = 0x44

abbrev pub map_part_error : ℕ
map_part_error = 0x45

abbrev pub pong_to_host : ℕ
pong_to_host = 0x46

abbrev pub incoming_action2 : ℕ
incoming_action2 = 0x48

abbrev pub player_extra : ℕ
player_extra = 0x59
