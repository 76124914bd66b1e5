-- ===== src/W3gs/Join/RoundTrip.antt =====
-- Join and PlayerInfo: Serialize followed by Deserialize.
use gowarcraft.Prelude.{true}
use gowarcraft.Prelude.{◌+◌, ◌%◌, ◌^◌, ◌≡◌, [], ◌∷◌, ◌++◌, length, IsU8, IsU16, IsU32, arith}
use gowarcraft.Prelude.{append_assoc, append-nil, length-append}
use gowarcraft.Protocol.Go.{Bytes, ◌>>=◌, done, and_then}
use gowarcraft.Protocol.Buffer.{buffer_calls}
use gowarcraft.Protocol.Buffer.RoundTrip.{le16, le32, IsCString, read_c_string-append}
use gowarcraft.Protocol.Buffer.Address.{ValidSockAddr, encode_sock_addr, length-encode_sock_addr}
use gowarcraft.Protocol.Buffer.Address.{write_sock_addr_lem, read_sock_addr-encode}
use gowarcraft.W3gs.Header.RoundTrip.{
  framed, framed-packet_bytes, packet_bytes, read_packet_size-packet_bytes,
}
use gowarcraft.W3gs.Pid
use gowarcraft.W3gs.Join.{Join, PlayerInfo, serialize_join, deserialize_join}
use gowarcraft.W3gs.Join.{serialize_player_info, deserialize_player_info}

pub record ValidJoin (p : Join) : Type 0 where
  pub host_counter : IsU32 p.host_counter
  pub entry_key : IsU32 p.entry_key
  pub listen_port : IsU16 p.listen_port
  pub join_counter : IsU32 p.join_counter
  pub player_name : IsCString p.player_name
  pub internal_addr : ValidSockAddr p.internal_addr
  pub fits : IsU16 (39 + length p.player_name)

module _ (p : Join) (h : ValidJoin p) where
  join_tail : Bytes
  join_tail = 2 ∷ 0 ∷ 0 ∷ encode_sock_addr p.internal_addr

  join_body : Bytes
  join_body = le32 p.host_counter (
      le32 p.entry_key
        (0 ∷ le16 p.listen_port (le32 p.join_counter (p.player_name ++ 0 ∷ join_tail))))

  join_bytes : Bytes
  join_bytes = packet_bytes Pid.req_join ((39 + length p.player_name) % 2 ^ 16) join_body

  serialize_join-bytes : serialize_join p [] ≡ done tt join_bytes
  unfolding serialize_join join_bytes join_body join_tail buffer_calls
  serialize_join-bytes = rw (write_sock_addr_lem _ h.internal_addr) (simp append_assoc)

  length-join_body : length join_body ≡ 35 + length p.player_name
  unfolding join_body join_tail
  length-join_body = omega (
    arith,
    length-append {0} p.player_name (0 ∷ join_tail),
    length-encode_sock_addr h.internal_addr,
  )

  deserialize_join-bytes : deserialize_join join_bytes ≡ done p []
  unfolding deserialize_join join_bytes
  deserialize_join-bytes =
      rw
        (read_packet_size-packet_bytes Pid.req_join (39 + length p.player_name) join_body h.fits
          (omega (arith, length-join_body)))
        (unfold join_body join_tail buffer_calls in
          ground (
            arith,
            read_c_string-append p.player_name join_tail h.player_name,
            append-nil (encode_sock_addr p.internal_addr),
            read_sock_addr-encode [] h.internal_addr,
          ))

  pub serialize_join-framed : framed Pid.req_join (serialize_join p []) ≡ true
  unfolding join_bytes
  serialize_join-framed = rw serialize_join-bytes (
      framed-packet_bytes Pid.req_join (39 + length p.player_name) join_body h.fits
        (omega (arith, length-join_body)))

  -- For a Join whose numbers fit their fields, whose name has no zero byte, whose address is
  -- valid and whose size fits sixteen bits, Serialize on an empty buffer and then Deserialize
  -- returns the same packet and leaves the buffer empty.
  pub join_round_trip : (serialize_join p >>= λ _. deserialize_join) [] ≡ done p []
  unfolding and_then
  join_round_trip = rw serialize_join-bytes deserialize_join-bytes

pub record ValidPlayerInfo (p : PlayerInfo) : Type 0 where
  pub join_counter : IsU32 p.join_counter
  pub player_id : IsU8 p.player_id
  pub player_name : IsCString p.player_name
  pub external_addr : ValidSockAddr p.external_addr
  pub internal_addr : ValidSockAddr p.internal_addr
  pub fits : IsU16 (44 + length p.player_name)

module _ (p : PlayerInfo) (h : ValidPlayerInfo p) where
  info_addrs : Bytes
  info_addrs = encode_sock_addr p.external_addr ++ encode_sock_addr p.internal_addr

  info_body : Bytes
  info_body = le32 p.join_counter (p.player_id ∷ (p.player_name ++ 0 ∷ 1 ∷ 0 ∷ info_addrs))

  info_bytes : Bytes
  info_bytes = packet_bytes Pid.player_info ((44 + length p.player_name) % 2 ^ 16) info_body

  serialize_player_info-bytes : serialize_player_info p [] ≡ done tt info_bytes
  unfolding serialize_player_info info_bytes info_body info_addrs buffer_calls
  serialize_player_info-bytes =
      rw (write_sock_addr_lem _ h.external_addr, write_sock_addr_lem _ h.internal_addr)
        (simp append_assoc)

  length-info_body : length info_body ≡ 40 + length p.player_name
  unfolding info_body info_addrs
  length-info_body = omega (
    arith,
    length-append {0} p.player_name (0 ∷ 1 ∷ 0 ∷ info_addrs),
    length-append {0} (encode_sock_addr p.external_addr) (encode_sock_addr p.internal_addr),
    length-encode_sock_addr h.external_addr,
    length-encode_sock_addr h.internal_addr,
  )

  deserialize_player_info-bytes : deserialize_player_info info_bytes ≡ done p []
  unfolding deserialize_player_info info_bytes
  deserialize_player_info-bytes =
      rw
        (read_packet_size-packet_bytes Pid.player_info (44 + length p.player_name) info_body h.fits
          (omega (arith, length-info_body)))
        (unfold info_body info_addrs buffer_calls in
          ground (
            arith,
            read_c_string-append p.player_name (1 ∷ 0 ∷ info_addrs) h.player_name,
            append-nil (encode_sock_addr p.internal_addr),
            read_sock_addr-encode (encode_sock_addr p.internal_addr) h.external_addr,
            read_sock_addr-encode [] h.internal_addr,
          ))

  pub serialize_player_info-framed : framed Pid.player_info (serialize_player_info p []) ≡ true
  unfolding info_bytes
  serialize_player_info-framed = rw serialize_player_info-bytes (
      framed-packet_bytes Pid.player_info (44 + length p.player_name) info_body h.fits
        (omega (arith, length-info_body)))

  -- For a PlayerInfo whose numbers fit their fields, whose name has no zero byte, whose two
  -- addresses are valid and whose size fits sixteen bits, Serialize on an empty buffer and then
  -- Deserialize returns the same packet and leaves the buffer empty.
  pub player_info_round_trip :
      (serialize_player_info p >>= λ _. deserialize_player_info) [] ≡ done p []
  unfolding and_then
  player_info_round_trip = rw serialize_player_info-bytes deserialize_player_info-bytes
