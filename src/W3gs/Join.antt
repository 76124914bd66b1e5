-- ===== src/W3gs/Join.antt =====
-- protocol/w3gs/packets.go: Join and PlayerInfo.
pub mod RoundTrip
pub mod Safety
use gowarcraft.Prelude.{ℕ, ◌+◌, ◌-◌, ◌%◌, ◌^◌, ◌==◌, length, not, ltb}
use gowarcraft.Protocol.Go.{Bytes, Go, ◌>>=◌, ◌>>◌, return, reject_if, invalid_packet_size}
use gowarcraft.Protocol.Go.{unexpected_const}
use gowarcraft.Protocol.Buffer.{SockAddr, skip, read_uint8, read_uint16, read_uint32, read_c_string}
use gowarcraft.Protocol.Buffer.{read_sock_addr, write_uint8, write_uint16, write_uint32}
use gowarcraft.Protocol.Buffer.{write_c_string, write_sock_addr, write_blob}
use gowarcraft.W3gs.Header.{protocol_sig, read_packet_size, size_lt, size_ne}
use gowarcraft.W3gs.Pid

pub record Join : Type 0 where
  pub host_counter : ℕ
  pub entry_key : ℕ
  pub listen_port : ℕ
  pub join_counter : ℕ
  pub player_name : Bytes
  pub internal_addr : SockAddr

unfoldable pub serialize_join : Join → Go (Unit {0})
serialize_join pkt = do
  write_uint8 protocol_sig
  write_uint8 Pid.req_join
  write_uint16 ((39 + length pkt.player_name) % 2 ^ 16)
  write_uint32 pkt.host_counter
  write_uint32 pkt.entry_key
  write_uint8 0
  write_uint16 pkt.listen_port
  write_uint32 pkt.join_counter
  write_c_string pkt.player_name
  write_uint8 2
  write_uint8 0
  write_uint8 0
  write_sock_addr pkt.internal_addr

unfoldable pub deserialize_join : Go Join
deserialize_join = do
  size ← read_packet_size
  reject_if (size_lt size 37) invalid_packet_size
  host_counter ← read_uint32
  entry_key ← read_uint32
  constant ← read_uint8
  reject_if (not (constant == 0)) unexpected_const
  listen_port ← read_uint16
  join_counter ← read_uint32
  player_name ← read_c_string
  reject_if (size_lt size (37 + length player_name)) invalid_packet_size
  n ← read_uint8
  reject_if (size_ne size (37 + length player_name + n)) invalid_packet_size
  skip n
  internal_addr ← read_sock_addr
  return (record {
    host_counter = host_counter;
    entry_key = entry_key;
    listen_port = listen_port;
    join_counter = join_counter;
    player_name = player_name;
    internal_addr = internal_addr;
  })

pub record PlayerInfo : Type 0 where
  pub join_counter : ℕ
  pub player_id : ℕ
  pub player_name : Bytes
  pub external_addr : SockAddr
  pub internal_addr : SockAddr

unfoldable pub serialize_player_info : PlayerInfo → Go (Unit {0})
serialize_player_info pkt = do
  write_uint8 protocol_sig
  write_uint8 Pid.player_info
  write_uint16 ((44 + length pkt.player_name) % 2 ^ 16)
  write_uint32 pkt.join_counter
  write_uint8 pkt.player_id
  write_c_string pkt.player_name
  write_uint8 1
  write_uint8 0
  write_sock_addr pkt.external_addr
  write_sock_addr pkt.internal_addr

unfoldable pub deserialize_player_info : Go PlayerInfo
deserialize_player_info = do
  size ← read_packet_size
  reject_if (size_lt size 43) invalid_packet_size
  join_counter ← read_uint32
  player_id ← read_uint8
  player_name ← read_c_string
  reject_if (size_lt size (43 + length player_name)) invalid_packet_size
  n ← read_uint8
  reject_if (size_ne size (43 + length player_name + n)) invalid_packet_size
  skip n
  external_addr ← read_sock_addr
  internal_addr ← read_sock_addr
  return (record {
    join_counter = join_counter;
    player_id = player_id;
    player_name = player_name;
    external_addr = external_addr;
    internal_addr = internal_addr;
  })
