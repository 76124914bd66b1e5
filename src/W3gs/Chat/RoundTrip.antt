-- ===== src/W3gs/Chat/RoundTrip.antt =====
-- Message, MessageRelay and PeerMessage: Serialize followed by Deserialize.
use gowarcraft.Prelude.{true}
use gowarcraft.Prelude.{
  ℕ, ◌+◌, ◌%◌, ◌^◌, ◌≡◌, ◌≢◌, [], ◌∷◌, ◌++◌, length, IsU8, IsU16, IsU32, arith,
}
use gowarcraft.Prelude.{==-eq-false, append_assoc, length-append}
use gowarcraft.Protocol.Go.{Bytes, ◌>>=◌, done, and_then}
use gowarcraft.Protocol.Buffer.{buffer_calls, byte}
use gowarcraft.Protocol.Buffer.RoundTrip.{le32, read_blob-append, IsCString, read_c_string-append}
use gowarcraft.W3gs.Header.RoundTrip.{
  framed, framed-packet_bytes, packet_bytes, read_packet_size-packet_bytes,
}
use gowarcraft.W3gs.Header.RoundTrip.{write_uint8_at-packet_bytes}
use gowarcraft.W3gs.Pid
use gowarcraft.W3gs.Chat.{Message, msg_chat, msg_chat_extra, scope_all, message_size}
use gowarcraft.W3gs.Chat.{serialize_message, deserialize_message, serialize_message_relay}
use gowarcraft.W3gs.Chat.{serialize_peer_message}

-- What the type of a message carries; the other fields have their zero values.
pub data ValidTail : Message → Type 0 where
  extra :
      (to : Bytes) (sender scope : ℕ) (text : Bytes)
      → IsU32 scope
      → IsCString text
      → ValidTail (record {
        recipient_ids = to;
        sender_id = sender;
        type = msg_chat_extra;
        scope = scope;
        new_val = 0;
        content = text;
      })
  chat :
      (to : Bytes) (sender : ℕ) (text : Bytes)
      → IsCString text
      → ValidTail (record {
        recipient_ids = to;
        sender_id = sender;
        type = msg_chat;
        scope = scope_all;
        new_val = 0;
        content = text;
      })
  change :
      (to : Bytes) (sender type value : ℕ)
      → IsU8 type
      → type ≢ msg_chat
      → type ≢ msg_chat_extra
      → IsU8 value
      → ValidTail (record {
        recipient_ids = to;
        sender_id = sender;
        type = type;
        scope = scope_all;
        new_val = value;
        content = [];
      })

abbrev tail_bytes : {p : Message} → ValidTail p → Bytes
tail_bytes (extra to sender scope text hs ht) = le32 scope (text ++ 0 ∷ [])
tail_bytes (chat to sender text ht) = text ++ 0 ∷ []
tail_bytes (change to sender type value h1 h2 h3 h4) = value ∷ []

message_body : (p : Message) → ValidTail p → Bytes
message_body p t =
    byte (length p.recipient_ids) ∷ (p.recipient_ids ++ p.sender_id ∷ p.type ∷ tail_bytes t)

abbrev message_bytes : ℕ → (p : Message) → ValidTail p → Bytes
message_bytes pid p t = packet_bytes pid (message_size p % 2 ^ 16) (message_body p t)

length-message_body :
    (p : Message) (t : ValidTail p) → message_size p ≡ 4 + length (message_body p t)
unfolding message_body
length-message_body p (extra to sender scope text hs ht) = omega (
  arith,
  length-append {0} to (sender ∷ msg_chat_extra ∷ le32 scope (text ++ 0 ∷ [])),
  length-append {0} text (0 ∷ []),
)
length-message_body p (chat to sender text ht) = omega (
  arith,
  length-append {0} to (sender ∷ msg_chat ∷ (text ++ 0 ∷ [])),
  length-append {0} text (0 ∷ []),
)
length-message_body p (change to sender type value h1 h2 h3 h4) =
    ground (arith, length-append {0} to (sender ∷ type ∷ value ∷ []))

serialize_message-bytes :
    (p : Message) (t : ValidTail p)
    → serialize_message p [] ≡ done tt (message_bytes Pid.chat_to_host p t)
unfolding serialize_message message_body buffer_calls
serialize_message-bytes p (extra to sender scope text hs ht) = simp append_assoc
serialize_message-bytes p (chat to sender text ht) = simp append_assoc
serialize_message-bytes p (change to sender type value h1 h2 h3 h4) =
    rw (==-eq-false h2, ==-eq-false h3) (simp append_assoc)

deserialize_message-bytes :
    (pid : ℕ) (p : Message) (t : ValidTail p)
    → IsU8 (length p.recipient_ids)
    → IsU16 (message_size p)
    → deserialize_message (message_bytes pid p t) ≡ done p []
unfolding deserialize_message
deserialize_message-bytes pid p (extra to sender scope text hs ht) h8 h =
    let t : ValidTail p = extra to sender scope text hs ht in
    rw
      (read_packet_size-packet_bytes pid (message_size p) (message_body p t) h
        (length-message_body p t))
      (unfold message_body buffer_calls in
        ground (
          arith,
          read_blob-append to (sender ∷ msg_chat_extra ∷ le32 scope (text ++ 0 ∷ [])),
          read_c_string-append text [] ht,
        ))
deserialize_message-bytes pid p (chat to sender text ht) h8 h =
    let t : ValidTail p = chat to sender text ht in
    rw
      (read_packet_size-packet_bytes pid (message_size p) (message_body p t) h
        (length-message_body p t))
      (unfold message_body buffer_calls in
        ground (
          arith,
          read_blob-append to (sender ∷ msg_chat ∷ (text ++ 0 ∷ [])),
          read_c_string-append text [] ht,
        ))
deserialize_message-bytes pid p (change to sender type value h1 h2 h3 h4) h8 h =
    let t : ValidTail p = change to sender type value h1 h2 h3 h4 in
    rw
      (read_packet_size-packet_bytes pid (message_size p) (message_body p t) h
        (length-message_body p t))
      (unfold message_body buffer_calls in
        ground (arith, read_blob-append to (sender ∷ type ∷ value ∷ [])))

pub record ValidMessage (p : Message) : Type 0 where
  pub tail : ValidTail p
  pub recipients : IsU8 (length p.recipient_ids)
  pub fits : IsU16 (message_size p)

module _ (p : Message) (h : ValidMessage p) where
  -- For a Message of any of the three kinds (chat, chat with a scope, change of a value) whose
  -- fields fit and whose unused fields have their defaults, Serialize on an empty buffer and
  -- then Deserialize returns the same packet and leaves the buffer empty.
  pub message_round_trip : (serialize_message p >>= λ _. deserialize_message) [] ≡ done p []
  unfolding and_then
  message_round_trip =
      rw (serialize_message-bytes p h.tail)
        (deserialize_message-bytes Pid.chat_to_host p h.tail h.recipients h.fits)

  pub message_relay_round_trip :
      (serialize_message_relay p >>= λ _. deserialize_message) [] ≡ done p []
  unfolding and_then serialize_message_relay
  message_relay_round_trip =
      rw
        (
          serialize_message-bytes p h.tail,
          write_uint8_at-packet_bytes Pid.chat_to_host Pid.chat_from_host (message_size p % 2 ^ 16)
              (message_body p h.tail),
        )
        (deserialize_message-bytes Pid.chat_from_host p h.tail h.recipients h.fits)

  pub peer_message_round_trip :
      (serialize_peer_message p >>= λ _. deserialize_message) [] ≡ done p []
  unfolding and_then serialize_peer_message
  peer_message_round_trip =
      rw
        (
          serialize_message-bytes p h.tail,
          write_uint8_at-packet_bytes Pid.chat_to_host Pid.chat_from_others
              (message_size p % 2 ^ 16) (message_body p h.tail),
        )
        (deserialize_message-bytes Pid.chat_from_others p h.tail h.recipients h.fits)

  message_bytes-framed : (pid : ℕ) → framed pid (done tt (message_bytes pid p h.tail)) ≡ true
  message_bytes-framed pid =
      framed-packet_bytes pid (message_size p) (message_body p h.tail) h.fits
        (length-message_body p h.tail)

  pub serialize_message-framed :
      (framed Pid.chat_to_host (serialize_message p []) ≡ true)
      × (framed Pid.chat_from_host (serialize_message_relay p []) ≡ true)
      × (framed Pid.chat_from_others (serialize_peer_message p []) ≡ true)
  unfolding and_then serialize_message_relay serialize_peer_message
  serialize_message-framed = (
    rw (serialize_message-bytes p h.tail) (message_bytes-framed Pid.chat_to_host),
    rw
        (
          serialize_message-bytes p h.tail,
          write_uint8_at-packet_bytes Pid.chat_to_host Pid.chat_from_host (message_size p % 2 ^ 16)
              (message_body p h.tail),
        )
        (message_bytes-framed Pid.chat_from_host),
    rw
        (
          serialize_message-bytes p h.tail,
          write_uint8_at-packet_bytes Pid.chat_to_host Pid.chat_from_others
              (message_size p % 2 ^ 16) (message_body p h.tail),
        )
        (message_bytes-framed Pid.chat_from_others),
  )

  -- For a valid Message, Serialize of MessageRelay and Serialize of PeerMessage, which patch the
  -- packet id of a Message, and then Deserialize return the same message and leave the buffer
  -- empty.
  pub relayed_round_trips :
      ((serialize_message_relay p >>= λ _. deserialize_message) [] ≡ done p [])
      × ((serialize_peer_message p >>= λ _. deserialize_message) [] ≡ done p [])
  relayed_round_trips = (message_relay_round_trip, peer_message_round_trip)
