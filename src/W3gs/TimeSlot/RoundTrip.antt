-- ===== src/W3gs/TimeSlot/RoundTrip.antt =====
-- TimeSlot: Serialize followed by Deserialize, and the fuel of the loop.
use gowarcraft.Prelude.{ℕ, zero, suc, ◌+◌, ◌-◌, ◌%◌, ◌^◌, ◌≤◌, ◌≡◌, Bool, true, false, List, []}
use gowarcraft.Prelude.{
  ◌==◌, ◌∷◌, ◌++◌, length, All, IsU16, arith, append_assoc, append-nil, refl, ap, Bool-cases, inl,
  inr,
}
use gowarcraft.Prelude.{length-append, if◌then◌else◌, ltb, take_all}
use mathlib.Core.Path.{fun_ext}
use gowarcraft.Protocol.Go.{Bytes, Go, ◌>>=◌, done, and_then}
use gowarcraft.Protocol.Buffer.{buffer_calls}
use gowarcraft.Protocol.Buffer.RoundTrip.{le16, read_blob-append}
use gowarcraft.W3gs.Header.RoundTrip.{
  framed, framed-packet_bytes, packet_bytes, read_packet_header-packet_bytes,
}
use gowarcraft.W3gs.Pid
use gowarcraft.W3gs.TimeSlot.{PlayerAction, TimeSlot, write_actions, read_actions, read_action}
use gowarcraft.W3gs.TimeSlot.{read_rest, read_last}
use gowarcraft.W3gs.TimeSlot.{serialize_time_slot, deserialize_time_slot}

-- What follows a round uses the loop only at a size smaller by three at least.
read_rest-ext :
    (size k : ℕ) (r : Bytes) (loop loop' : ℕ → Go (List PlayerAction))
    → ((s : ℕ) (b : Bytes) → s + 3 ≤ size → loop s b ≡ loop' s b)
    → read_rest size loop k r ≡ read_rest size loop' k r
read_rest-ext size k r loop loop' ih = elim (Bool-cases (ltb size (3 + k))) [
  | inl short ↦ rw short
  | inr long ↦ rw long (ih (size - (3 + k)) r (ground arith))
]

-- The loop of Deserialize of a TimeSlot with `size` bytes left has one result for all amounts of
-- fuel from `size` on.
pub read_actions-fuel :
    (f g size : ℕ) (b : Bytes) → size ≤ f → size ≤ g → read_actions f size b ≡ read_actions g size b
unfolding read_actions
read_actions-fuel zero zero size b h h' = refl
read_actions-fuel zero (suc g) size b h h' = ground arith
read_actions-fuel (suc f) zero size b h h' = ground arith
read_actions-fuel (suc f) (suc g) size b h h' =
    ap (λ rest. (if ltb size 3 then read_last size else read_action size rest) b)
      (fun_ext λ k. fun_ext λ r.
        read_rest-ext size k r (read_actions f) (read_actions g)
          (λ s c hs. read_actions-fuel f g s c (omega arith) (omega arith)))

unfoldable pub actions_bytes : List PlayerAction → Bytes
actions_bytes [] = []
actions_bytes (a ∷ acts) =
    a.player_id ∷ le16 (length a.content % 2 ^ 16) (a.content ++ actions_bytes acts)

write_actions-bytes :
    (acts : List PlayerAction) (b : Bytes)
    → write_actions acts b ≡ done tt (b ++ actions_bytes acts)
unfolding write_actions actions_bytes buffer_calls
write_actions-bytes [] b = rw append-nil
write_actions-bytes (a ∷ acts) b = rw (write_actions-bytes acts) (simp append_assoc)

pub length-actions_bytes :
    (a : PlayerAction) (acts : List PlayerAction)
    → length (actions_bytes (a ∷ acts)) ≡ 3 + length a.content + length (actions_bytes acts)
unfolding actions_bytes
length-actions_bytes a acts = omega (arith, length-append {0} a.content (actions_bytes acts))

abbrev pub IsShort : PlayerAction → Type 0
IsShort a = IsU16 (length a.content)

read_actions-bytes :
    (acts : List PlayerAction) (fuel : ℕ)
    → All IsShort acts
    → length (actions_bytes acts) ≤ fuel
    → read_actions fuel (length (actions_bytes acts)) (actions_bytes acts) ≡ done acts []
unfolding read_actions actions_bytes read_action buffer_calls
read_actions-bytes [] zero h f = refl
read_actions-bytes [] (suc fuel) h f = refl
read_actions-bytes (a ∷ acts) zero h f = absurd (omega (arith, length-actions_bytes a acts))
read_actions-bytes (a ∷ acts) (suc fuel) (h, hs) f = ground (
  arith,
  length-actions_bytes a acts,
  read_blob-append a.content (actions_bytes acts),
  read_actions-bytes acts fuel hs,
)

pub record ValidTimeSlot (p : TimeSlot) : Type 0 where
  pub time_increment_ms : IsU16 p.time_increment_ms
  pub actions : All IsShort p.actions
  pub fits : IsU16 (8 + length (actions_bytes p.actions))

module _ (crc32 : Bytes → ℕ) (p : TimeSlot) (h : ValidTimeSlot p) where
  slot_body : Bytes
  slot_body =
      le16 p.time_increment_ms
        (le16 (crc32 (actions_bytes p.actions) % 2 ^ 16) (actions_bytes p.actions))

  slot_bytes : Bytes
  slot_bytes =
      packet_bytes (if p.fragment then Pid.incoming_action2 else Pid.incoming_action)
        ((8 + length (actions_bytes p.actions)) % 2 ^ 16) slot_body

  serialize_time_slot-bytes : serialize_time_slot crc32 p [] ≡ done tt slot_bytes
  unfolding serialize_time_slot slot_bytes slot_body buffer_calls
  serialize_time_slot-bytes = rw (write_actions-bytes p.actions) (ground arith)

  fragment_of_pid :
      (b : Bool)
      → ((if b then Pid.incoming_action2 else Pid.incoming_action) == Pid.incoming_action2) ≡ b
  fragment_of_pid true = refl
  fragment_of_pid false = refl

  deserialize_time_slot-bytes : deserialize_time_slot crc32 slot_bytes ≡ done p []
  unfolding deserialize_time_slot slot_bytes
  deserialize_time_slot-bytes =
      rw
        (read_packet_header-packet_bytes
          (if p.fragment then Pid.incoming_action2 else Pid.incoming_action)
          (8 + length (actions_bytes p.actions)) slot_body h.fits (unfold slot_body in omega arith))
        (unfold slot_body buffer_calls in
          ground (
            arith,
            fragment_of_pid p.fragment,
            take_all (actions_bytes p.actions),
            read_actions-bytes p.actions (length (actions_bytes p.actions)) h.actions,
          ))

  pub serialize_time_slot-framed :
      framed
        (if p.fragment then Pid.incoming_action2 else Pid.incoming_action)
        (serialize_time_slot crc32 p [])
      ≡ true
  unfolding slot_bytes
  serialize_time_slot-framed = rw serialize_time_slot-bytes (
      framed-packet_bytes (if p.fragment then Pid.incoming_action2 else Pid.incoming_action)
        (8 + length (actions_bytes p.actions)) slot_body h.fits (unfold slot_body in omega arith))

  -- For a TimeSlot with any actions whose lengths, whose total size and whose time increment fit
  -- sixteen bits, and for any checksum function, Serialize on an empty buffer and then
  -- Deserialize returns the same packet and leaves the buffer empty.
  pub time_slot_round_trip :
      (serialize_time_slot crc32 p >>= λ _. deserialize_time_slot crc32) [] ≡ done p []
  unfolding and_then
  time_slot_round_trip = rw serialize_time_slot-bytes deserialize_time_slot-bytes
