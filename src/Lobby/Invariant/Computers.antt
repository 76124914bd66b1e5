-- ===== src/Lobby/Invariant/Computers.antt =====
-- Computer players of a lobby: changeComputer.
use gowarcraft.Prelude.{
  ℕ, ◌==◌, ◌<◌, ◌≡◌, ◌&&◌, not, Bool, true, false, some, if◌then◌else◌, length, set, arith, refl,
}
use gowarcraft.Lobby.Slots.{Lobby, get_slot, with_slot, slot_occupied}
use gowarcraft.Lobby.Slots.Laws.{length-set, All-get_slot}
use gowarcraft.Lobby.Invariant.{Inv, IsSlot, is_seat, put-Inv, refill-Inv}
use gowarcraft.Lobby.Slots.{Result, init_slot}
use gowarcraft.Lobby.Changes.{
  accepted, refused, change_computer, change_ai, add_computer, after_init,
}
use gowarcraft.Lobby.Invariant.Joining.{InitOk, placed, not_placed, init_slot-InitOk, vacant_slot}
use gowarcraft.Lobby.Invariant.Status.{if-Inv, reset_slot-Inv}
use gowarcraft.Lobby.Slots.{obs_disabled, slot_is_occupied}
use gowarcraft.Lobby.Slots.Laws.{get_slot-set}
use gowarcraft.Lobby.Invariant.Calls.{SafeReply, safe, safe_pair, if-SafeReply}

-- A slot of a lobby keeps its fields but those that the invariant leaves free.
module _ (l : Lobby) (v : Inv l) (sid : ℕ) (h : sid < length l.slots) where
  slot : IsSlot l.obs_team (get_slot l.slots sid)
  slot = All-get_slot (IsSlot l.obs_team) l.slots sid v.slots h

  pub with_status-Inv :
      (n : ℕ) → Inv (with_slot l sid (record (get_slot l.slots sid) { download_status = n }))
  with_status-Inv n =
      put-Inv l sid (record (get_slot l.slots sid) { download_status = n }) v h
        (record { color = slot.color; team = slot.team; taken = slot.taken; human = slot.human })
        refl

  change_ai-SafeReply : (ai : ℕ) → SafeReply (some (change_ai l sid ai))
  change_ai-SafeReply ai = by_kind (get_slot l.slots sid).computer
    where
      by_kind :
          (c : Bool)
          → SafeReply (
              some (
                if c
                then (
                  with_slot l sid (record (get_slot l.slots sid) { computer_type = ai }),
                  accepted,
                )
                else (l, refused slot_is_occupied)))
      by_kind true = safe (
          put-Inv l sid (record (get_slot l.slots sid) { computer_type = ai }) v h
            (record {
              color = slot.color;
              team = slot.team;
              taken = slot.taken;
              human = slot.human;
            })
            refl)
      by_kind false = safe v

  -- The slot was filled by initSlot, and is no player's.
  add_computer-SafeReply :
      (ai : ℕ) → is_seat (get_slot l.slots sid) ≡ false → SafeReply (some (add_computer l sid ai))
  add_computer-SafeReply ai free = safe_pair _ (
      if-Inv
        (not (l.obs_team == obs_disabled) && (get_slot l.slot_base.slots sid).team == l.obs_team) _
        _ (λ _. reset_slot-Inv l sid v h free)
        λ _.
          refill-Inv l sid _ v h
            (record {
              color = slot.color;
              team = slot.team;
              taken = slot.taken;
              human = ground (arith, free);
            })
            free free)

after_init-SafeReply :
    (l : Lobby) (v : Inv l) (sid ai : ℕ) (h : sid < length l.slots) (r : Result Lobby)
    → is_seat (get_slot l.slots sid) ≡ false
    → InitOk l v sid h r
    → SafeReply (after_init l r (λ l'. add_computer l' sid ai))
after_init-SafeReply l v sid ai h _ vacant (not_placed e) = safe v
after_init-SafeReply l v sid ai h _ vacant (placed s hs free taken human) =
    add_computer-SafeReply (with_slot l sid s) (refill-Inv l sid s v h hs vacant free) sid
      (omega (arith, h, length-set l.slots sid s)) ai (rw at_sid free)
  where
    at_sid : get_slot (set l.slots sid s) sid ≡ s
    at_sid = ground (arith, get_slot-set l.slots sid sid s h)

pub change_computer-SafeReply :
    (l : Lobby) (sid ai : ℕ) → Inv l → sid < length l.slots → SafeReply (change_computer l sid ai)
unfolding change_computer
change_computer-SafeReply l sid ai v h =
    if-SafeReply ((get_slot l.slots sid).slot_status == slot_occupied) _ _
      (λ _. change_ai-SafeReply l v sid h ai)
      λ e.
        after_init-SafeReply l v sid ai h (init_slot l sid) (vacant_slot l v sid h e)
          (init_slot-InitOk l v sid h e)
