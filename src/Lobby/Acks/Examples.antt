-- ===== src/Lobby/Acks/Examples.antt =====
-- A ring with two checksums, the second of which stands at the start of the array.
use gowarcraft.Prelude.{◌≡◌, ◌<◌, ◌+◌, ◌%◌, arith}
use gowarcraft.Lobby.Acks.{AckQueue, capacity, dequeue_ack, on_time_slot_ack}
use gowarcraft.Lobby.Acks.Ring.{
  IsRing, StaysRing, contents, put, take_first, map_contents, ack_queue_lem, ack_queue-IsRing,
}

abbrev wrapped : AckQueue
wrapped = record { ackarr = λ i. i + 7; ackidx = 2047; acklen = 2 }

wrapped-IsRing : IsRing wrapped
wrapped-IsRing = record { index = omega arith; room = omega arith }

ack_queue_lem_example :
    (map_contents (on_time_slot_ack 5 wrapped) ≡ put 5 (contents wrapped))
    × ((dequeue_ack wrapped).0 ≡ (take_first (contents wrapped)).0)
    × (contents (dequeue_ack wrapped).1 ≡ (take_first (contents wrapped)).1)
ack_queue_lem_example = ack_queue_lem 5 wrapped wrapped-IsRing

ack_queue-IsRing_example :
    StaysRing (on_time_slot_ack 5 wrapped)
    × IsRing (dequeue_ack wrapped).1
    × (wrapped.ackidx < capacity)
    × ((wrapped.ackidx + wrapped.acklen) % capacity < capacity)
ack_queue-IsRing_example = ack_queue-IsRing 5 wrapped wrapped-IsRing
