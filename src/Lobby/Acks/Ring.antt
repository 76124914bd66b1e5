-- ===== src/Lobby/Acks/Ring.antt =====
-- The ring holds a queue: what is put in last comes out last.
use gowarcraft.Prelude.{
  ℕ, zero, suc, ◌+◌, ◌-◌, ◌%◌, ◌≡◌, ◌≤◌, ◌<◌, ◌≢◌, ◌++◌, List, [], ◌∷◌, Bool, true, false, Option,
  some, none, ltb, leb, if◌then◌else◌, length, arith, refl,
}
use gowarcraft.Lobby.Acks.{AckQueue, Dequeued, dequeue_ack, on_time_slot_ack, capacity, store}

-- The checksums from index i on.
abbrev collect : (ℕ → ℕ) → ℕ → ℕ → List ℕ
collect arr zero i = []
collect arr (suc n) i = arr (i % capacity) ∷ collect arr n (i + 1)

pub contents : AckQueue → List ℕ
contents q = collect q.ackarr q.acklen q.ackidx

-- No index is out of the array.
pub record IsRing (q : AckQueue) : Type 0 where
  pub index : q.ackidx < capacity
  pub room : q.acklen ≤ capacity

collect-wrap : (arr : ℕ → ℕ) (n i : ℕ) → collect arr n (capacity + i) ≡ collect arr n i
collect-wrap arr zero i = refl
collect-wrap arr (suc n) i = rw (wrap, next_index, collect-wrap arr n (i + 1)) refl
  where
    wrap : (capacity + i) % capacity ≡ i % capacity
    wrap = omega arith

    next_index : capacity + i + 1 ≡ capacity + (i + 1)
    next_index = omega arith

-- A place that is not among them is overwritten.
collect-store :
    (arr : ℕ → ℕ) (p v n i : ℕ)
    → ((j : ℕ) → j < n → (i + j) % capacity ≢ p)
    → collect (store arr p v) n i ≡ collect arr n i
collect-store arr p v zero i h = refl
collect-store arr p v (suc n) i h = ground (
  arith,
  first,
  collect-store arr p v n (i + 1) λ j hj e. h (j + 1) (omega (arith, hj)) (omega (arith, e)),
)
  where
    first : p ≢ i % capacity
    first = λ e. h 0 (omega arith) (omega (arith, e))

collect-last :
    (arr : ℕ → ℕ) (n i : ℕ)
    → collect arr (suc n) i ≡ collect arr n i ++ arr ((i + n) % capacity) ∷ []
collect-last arr zero i = rw (← index) refl
  where
    index : i ≡ i + 0
    index = omega arith
collect-last arr (suc n) i = rw (collect-last arr n (i + 1), index) refl
  where
    index : i + 1 + n ≡ i + suc n
    index = omega arith

-- A queue of at most 2048 checksums, as a list.
abbrev pub put : ℕ → List ℕ → Option (List ℕ)
put checksum queue = if leb capacity (length queue) then none else some (queue ++ checksum ∷ [])

abbrev pub take_first : List ℕ → Dequeued × List ℕ
take_first [] = (record { checksum = 0; ok = false; more = false }, [])
take_first (c ∷ queue) = (record { checksum = c; ok = true; more = ltb 0 (length queue) }, queue)

abbrev pub map_contents : Option AckQueue → Option (List ℕ)
map_contents none = none
map_contents (some q) = some (contents q)

length-collect : (arr : ℕ → ℕ) (n i : ℕ) → length (collect arr n i) ≡ n
length-collect arr zero i = refl
length-collect arr (suc n) i = omega (arith, length-collect arr n (i + 1))

put-contents :
    (checksum : ℕ) (q : AckQueue)
    → IsRing q
    → map_contents (on_time_slot_ack checksum q) ≡ put checksum (contents q)
unfolding on_time_slot_ack contents
put-contents checksum q h = by_room (leb capacity q.acklen) refl
  where
    place : ℕ
    place = (q.ackidx + q.acklen) % capacity

    add_one : q.acklen + 1 ≡ suc q.acklen
    add_one = omega arith

    at_place : store q.ackarr place checksum place ≡ checksum
    at_place = ground arith

    stored :
        q.acklen < capacity
        → collect (store q.ackarr place checksum) (q.acklen + 1) q.ackidx
          ≡ collect q.ackarr q.acklen q.ackidx ++ checksum ∷ []
    stored lt =
        rw
          (
            add_one,
            collect-last (store q.ackarr place checksum) q.acklen q.ackidx,
            collect-store q.ackarr place checksum q.acklen q.ackidx
                (λ j hj. omega (arith, hj, lt, h.index)),
            at_place,
          )
          refl

    by_room :
        (c : Bool)
        → leb capacity q.acklen ≡ c
        → map_contents (
            if c
            then none
            else some (record q {
              ackarr = store q.ackarr ((q.ackidx + q.acklen) % capacity) checksum;
              acklen = q.acklen + 1;
            }))
          ≡ (if leb capacity (length (collect q.ackarr q.acklen q.ackidx))
              then none
              else some (collect q.ackarr q.acklen q.ackidx ++ checksum ∷ []))
    by_room true e = ground (arith, e, length-collect q.ackarr q.acklen q.ackidx)
    by_room false e =
        ground (arith, e, length-collect q.ackarr q.acklen q.ackidx, stored (ground (arith, e)))

abbrev ring : (ℕ → ℕ) → ℕ → ℕ → AckQueue
ring arr n i = record { ackarr = arr; ackidx = i; acklen = n }

take_first-ring :
    (arr : ℕ → ℕ) (n i : ℕ)
    → i < capacity
    → ((dequeue_ack (ring arr n i)).0 ≡ (take_first (collect arr n i)).0)
      × (contents (dequeue_ack (ring arr n i)).1 ≡ (take_first (collect arr n i)).1)
unfolding dequeue_ack contents
take_first-ring arr zero i h = (refl, refl)
take_first-ring arr (suc n) i h = (
  rw (positive, one_less, small, length-collect arr n (i + 1)) refl,
  rw (positive, one_less) (at_end (leb capacity (i + 1)) refl),
)
  where
    positive : ltb 0 (suc n) ≡ true
    positive = ground arith

    one_less : suc n - 1 ≡ n
    one_less = omega arith

    small : i % capacity ≡ i
    small = omega (arith, h)

    at_end :
        (c : Bool)
        → leb capacity (i + 1) ≡ c
        → collect arr n (if c then 0 else i + 1) ≡ collect arr n (i + 1)
    at_end true e = rw (last_index, collect-wrap arr n 0) refl
      where
        last_index : i + 1 ≡ capacity + 0
        last_index = ground (arith, e, h)
    at_end false e = refl

-- The ring of checksums of a player implements a queue of at most 2048: onTimeSlotAck appends at
-- the end, or kicks the player when there are 2048, and DequeueAck takes the first, and says
-- whether there was one and whether there are more.
pub ack_queue_lem :
    (checksum : ℕ) (q : AckQueue)
    → IsRing q
    → (map_contents (on_time_slot_ack checksum q) ≡ put checksum (contents q))
      × ((dequeue_ack q).0 ≡ (take_first (contents q)).0)
      × (contents (dequeue_ack q).1 ≡ (take_first (contents q)).1)
unfolding contents
ack_queue_lem checksum q h =
    let taken = take_first-ring q.ackarr q.acklen q.ackidx h.index in
    (put-contents checksum q h, taken.0, taken.1)

-- None is no queue at all.
abbrev pub StaysRing : Option AckQueue → Type 0
StaysRing none = Unit
StaysRing (some q) = IsRing q

-- Both methods of the ring keep its index below 2048 and its length at 2048 or less, and the
-- places that they read and write are in the array.
pub ack_queue-IsRing :
    (checksum : ℕ) (q : AckQueue)
    → IsRing q
    → StaysRing (on_time_slot_ack checksum q)
      × IsRing (dequeue_ack q).1
      × (q.ackidx < capacity)
      × ((q.ackidx + q.acklen) % capacity < capacity)
unfolding on_time_slot_ack dequeue_ack
ack_queue-IsRing checksum q h =
    (by_room (leb capacity q.acklen) refl, by_length (ltb 0 q.acklen) refl, h.index, omega arith)
  where
    by_room :
        (c : Bool)
        → leb capacity q.acklen ≡ c
        → StaysRing (
            if c
            then none
            else some (record q {
              ackarr = store q.ackarr ((q.ackidx + q.acklen) % capacity) checksum;
              acklen = q.acklen + 1;
            }))
    by_room true e = tt
    by_room false e = record { index = h.index; room = ground (arith, e) }

    by_length :
        (c : Bool)
        → ltb 0 q.acklen ≡ c
        → IsRing
            (if◌then◌else◌ {A = Dequeued × AckQueue} c
              (
                record { checksum = q.ackarr q.ackidx; ok = true; more = ltb 0 (q.acklen - 1) },
                record q {
                  ackidx = if leb capacity (q.ackidx + 1) then 0 else q.ackidx + 1;
                  acklen = q.acklen - 1;
                },
              )
              (record { checksum = 0; ok = false; more = false }, q)).1
    by_length true e = record { index = ground (arith, h.index); room = omega (arith, h.room) }
    by_length false e = h
