-- ===== src/W3gs/Chat/Safety.antt =====
-- Message: Deserialize on any bytes.
use gowarcraft.Prelude.{ℕ, ◌+◌, ◌-◌, ◌≤◌, length, ◌==◌, arith}
use gowarcraft.Protocol.Go.{Bytes, NoPanic}
use gowarcraft.Protocol.Buffer.NoPanic.{rejected, returned, after_lt, after_ne, after_uint8}
use gowarcraft.Protocol.Buffer.NoPanic.{after_uint32, after_blob, after_c_string, after_if}
use gowarcraft.W3gs.Header.NoPanic.{after_size}
use gowarcraft.W3gs.Chat.{deserialize_message, read_chat, read_message_tail}
use gowarcraft.W3gs.Chat.{read_chat_extra, read_change, scope_all, msg_chat, msg_chat_extra}

module _ (to : Bytes) (sender type : ℕ) where
  read_chat-NoPanic : (n scope : ℕ) (b : Bytes) → NoPanic (read_chat n to sender type scope b)
  read_chat-NoPanic n scope b = after_c_string _ λ s r h. after_ne _ n _ _ _ λ c. returned _ _

  read_chat_extra-NoPanic :
      (n : ℕ) (b : Bytes)
      → n ≤ length b + length to + 7
      → NoPanic (read_chat_extra n to sender type b)
  read_chat_extra-NoPanic n b h =
      after_lt _ n _ _ _
        λ c. after_uint32 _ (omega arith) λ scope r hr. read_chat-NoPanic (n - 4) scope r

  read_change-NoPanic :
      (n : ℕ) (b : Bytes) → n ≤ length b + length to + 7 → NoPanic (read_change n to sender type b)
  read_change-NoPanic n b h =
      after_ne _ n _ _ _ λ c. after_uint8 _ (omega arith) λ v r hr. returned _ _

  read_message_tail-NoPanic :
      (n : ℕ) (b : Bytes)
      → n ≤ length b + length to + 7
      → NoPanic (read_message_tail n to sender type b)
  read_message_tail-NoPanic n b h =
      after_if (read_chat_extra n to sender type) _ (type == msg_chat_extra) b
        (λ e. read_chat_extra-NoPanic n b h)
        λ e.
          after_if (read_chat n to sender type scope_all) (read_change n to sender type)
            (type == msg_chat) b (λ e'. read_chat-NoPanic n scope_all b)
            λ e'. read_change-NoPanic n b h

-- Deserialize of a Message does not panic, whatever bytes the buffer holds.
pub deserialize_message-NoPanic : (b : Bytes) → NoPanic (deserialize_message b)
unfolding deserialize_message
deserialize_message-NoPanic b =
    after_size _ b (λ r. rejected _ _ r)
      λ n r h. after_lt _ n _ _ _ λ c. after_uint8 _ (omega arith) λ k r1 h1.
        after_lt _ n _ _ _ λ c1. after_blob k _ (omega arith) λ to r2 ht h2.
          after_uint8 _ (omega arith) λ sender r3 h3.
            after_uint8 _ (omega arith)
              λ type r4 h4. read_message_tail-NoPanic to sender type n r4 (omega arith)
