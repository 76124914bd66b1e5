-- ===== src/W3gs/Chat.antt =====
-- protocol/w3gs/packets.go: Message, MessageRelay and PeerMessage.
pub mod RoundTrip
pub mod Safety
use gowarcraft.Prelude.{ℕ, ◌+◌, ◌-◌, ◌%◌, ◌^◌, ◌==◌, length, [], some, if◌then◌else◌}
use gowarcraft.Protocol.Go.{Bytes, Go, ◌>>=◌, ◌>>◌, return, reject_if, get_bytes}
use gowarcraft.Protocol.Go.{invalid_packet_size}
use gowarcraft.Protocol.Buffer.{byte, read_uint8, read_uint32, read_blob, read_c_string}
use gowarcraft.Protocol.Buffer.{write_uint8, write_uint16, write_uint32, write_blob, write_c_string}
use gowarcraft.Protocol.Buffer.{write_uint8_at}
use gowarcraft.W3gs.Header.{protocol_sig, read_packet_size, size_ne, size_lt, int_of}
use gowarcraft.W3gs.Pid

-- The values of MessageType and MessageScope that the code tests.
abbrev pub msg_chat : ℕ
msg_chat = 0x10

abbrev pub msg_chat_extra : ℕ
msg_chat_extra = 0x20

abbrev pub scope_all : ℕ
scope_all = 0

pub record Message : Type 0 where
  pub recipient_ids : Bytes
  pub sender_id : ℕ
  pub type : ℕ
  pub scope : ℕ
  pub new_val : ℕ
  pub content : Bytes

abbrev pub message_size : Message → ℕ
message_size pkt =
    if pkt.type == msg_chat_extra
    then 12 + length pkt.recipient_ids + length pkt.content
    else (if pkt.type == msg_chat
        then 8 + length pkt.recipient_ids + length pkt.content
        else 8 + length pkt.recipient_ids)

-- The second switch; the case MsgChatExtra falls through to MsgChat.
abbrev pub write_message_tail : Message → Go (Unit {0})
write_message_tail pkt =
    if pkt.type == msg_chat_extra
    then (do write_uint32 pkt.scope; write_c_string pkt.content)
    else (if pkt.type == msg_chat then write_c_string pkt.content else write_uint8 pkt.new_val)

unfoldable pub serialize_message : Message → Go (Unit {0})
serialize_message pkt = do
  write_uint8 protocol_sig
  write_uint8 Pid.chat_to_host
  write_uint16 (message_size pkt % 2 ^ 16)
  write_uint8 (byte (length pkt.recipient_ids))
  write_blob pkt.recipient_ids
  write_uint8 pkt.sender_id
  write_uint8 pkt.type
  write_message_tail pkt

-- The case MsgChat, where `size` has lost 4 if the scope was read.
abbrev pub read_chat : ℕ → Bytes → ℕ → ℕ → ℕ → Go Message
read_chat size recipient_ids sender_id type scope = do
  content ← read_c_string
  reject_if (size_ne (some size) (8 + length recipient_ids + length content)) invalid_packet_size
  return (record {
    recipient_ids = recipient_ids;
    sender_id = sender_id;
    type = type;
    scope = scope;
    new_val = 0;
    content = content;
  })

abbrev pub read_chat_extra : ℕ → Bytes → ℕ → ℕ → Go Message
read_chat_extra size recipient_ids sender_id type = do
  reject_if (size_lt (some size) (12 + length recipient_ids)) invalid_packet_size
  scope ← read_uint32
  read_chat (size - 4) recipient_ids sender_id type scope

abbrev pub read_change : ℕ → Bytes → ℕ → ℕ → Go Message
read_change size recipient_ids sender_id type = do
  reject_if (size_ne (some size) (8 + length recipient_ids)) invalid_packet_size
  new_val ← read_uint8
  return (record {
    recipient_ids = recipient_ids;
    sender_id = sender_id;
    type = type;
    scope = scope_all;
    new_val = new_val;
    content = [];
  })

abbrev pub read_message_tail : ℕ → Bytes → ℕ → ℕ → Go Message
read_message_tail size recipient_ids sender_id type =
    if type == msg_chat_extra
    then read_chat_extra size recipient_ids sender_id type
    else (if type == msg_chat
        then read_chat size recipient_ids sender_id type scope_all
        else read_change size recipient_ids sender_id type)

unfoldable pub deserialize_message : Go Message
deserialize_message = do
  size ← read_packet_size
  reject_if (size_lt size 8) invalid_packet_size
  num_recipients ← read_uint8
  reject_if (size_lt size (8 + num_recipients)) invalid_packet_size
  recipient_ids ← read_blob num_recipients
  sender_id ← read_uint8
  type ← read_uint8
  read_message_tail (int_of size) recipient_ids sender_id type

-- MessageRelay and PeerMessage embed Message, and have its Deserialize.
unfoldable pub serialize_message_relay : Message → Go (Unit {0})
serialize_message_relay pkt = do
  start ← get_bytes
  serialize_message pkt
  write_uint8_at (length start + 1) Pid.chat_from_host

unfoldable pub serialize_peer_message : Message → Go (Unit {0})
serialize_peer_message pkt = do
  start ← get_bytes
  serialize_message pkt
  write_uint8_at (length start + 1) Pid.chat_from_others
