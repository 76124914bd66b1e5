-- ===== src/Lobby/Acks.antt =====
-- network/lobby/player.go: the ring of checksums that a player has sent and that are not compared
-- yet. The array has a fixed length, so it is a function of the index.
pub mod Ring
mod Examples
use gowarcraft.Prelude.{
  ℕ, ◌+◌, ◌-◌, ◌%◌, ◌==◌, Bool, true, false, Option, some, none, ltb, leb, if◌then◌else◌,
}

-- len(p.ackarr)
abbrev pub capacity : ℕ
capacity = 2048

pub record AckQueue : Type 0 where
  pub ackarr : ℕ → ℕ
  pub ackidx : ℕ
  pub acklen : ℕ

-- The results of DequeueAck.
pub record Dequeued : Type 0 where
  pub checksum : ℕ
  pub ok : Bool
  pub more : Bool

unfoldable pub dequeue_ack : AckQueue → Dequeued × AckQueue
dequeue_ack q =
    if ltb 0 q.acklen
    then (
      record { checksum = q.ackarr q.ackidx; ok = true; more = ltb 0 (q.acklen - 1) },
      record q {
        ackidx = if leb capacity (q.ackidx + 1) then 0 else q.ackidx + 1;
        acklen = q.acklen - 1;
      },
    )
    else (record { checksum = 0; ok = false; more = false }, q)

abbrev pub store : (ℕ → ℕ) → ℕ → ℕ → ℕ → ℕ
store arr i v j = if i == j then v else arr j

-- onTimeSlotAck. With none the player is kicked; else Tick is fired with the new length.
unfoldable pub on_time_slot_ack : ℕ → AckQueue → Option AckQueue
on_time_slot_ack checksum q =
    if leb capacity q.acklen
    then none
    else some (record q {
      ackarr = store q.ackarr ((q.ackidx + q.acklen) % capacity) checksum;
      acklen = q.acklen + 1;
    })
