-- ===== src/Lobby/Invariant/Reachable.antt =====
-- The lobbies that calls lead to.
use gowarcraft.Prelude.{
  subst, ℕ, ◌==◌, ◌≡◌, ◌&&◌, not, Bool, false, Option, some, none, [], arith, refl,
}
use gowarcraft.Lobby.Slots.{Lobby, get_slot, slot_open, slot_closed, custom_forces, fixed_settings}
use gowarcraft.Lobby.Invariant.{Inv}
use gowarcraft.Lobby.Slots.{find_slot, find_empty_team_slot, is_open}
use gowarcraft.Lobby.Slots.Laws.{find_slot-eq-some}
use gowarcraft.Lobby.Changes.{change_race, change_team, change_color, change_handicap}
use gowarcraft.Lobby.Hosting.{
  Reply, close_lobby, out_of_slots, change_all_slots, open_slot, close_slot, host_swap_slots,
  shuffle_slots, host_change_race, host_change_team, host_change_color, host_change_handicap,
  host_change_computer, on_map_state, on_team_change, on_color_change, on_race_change,
  on_handicap_change, swap_to_team,
}
use gowarcraft.Lobby.Invariant.Changes.{
  change_race-OkInv, change_team-OkInv, change_color-OkInv, change_handicap-OkInv,
}
use gowarcraft.Lobby.Invariant.Slots.{swap_slots-Inv, shuffle_pairs-Inv, restatus-Inv}
use gowarcraft.Lobby.Invariant.Status.{change_slot_status-Inv}
use gowarcraft.Lobby.Steps.{Call, step, IsPlayer, Allowed, Reach, here, next}
use gowarcraft.Lobby.Slots.{slot_open, players_occupied, color_occupied, lobby_locked}
use gowarcraft.Lobby.Hosting.{has_ai}
use gowarcraft.Lobby.Steps.{
  locks, closes_lobby, opens_all, closes_all, opens, closes, swaps, shuffles, changes_race,
  changes_team, changes_color, changes_handicap, changes_computer, joins, leaves, reports_map,
  asks_team, asks_color, asks_race, asks_handicap,
}
use gowarcraft.Lobby.Invariant.Calls.{
  SafeReply, safe, safe_pair, if-SafeReply, on_slot-SafeReply, taken-SafeReply, player-pos,
  at_player-SafeReply, judged-SafeReply, joined-SafeReply, on_leave-SafeReply,
}
use gowarcraft.Lobby.Invariant.Computers.{with_status-Inv, change_computer-SafeReply}

with_lock-Inv : (l : Lobby) (b : Bool) → Inv l → Inv (record l { locked = b })
with_lock-Inv l b v = record {
  same_length = v.same_length;
  few = v.few;
  slots = v.slots;
  base = v.base;
  teams = v.teams;
  colors = v.colors;
  members = v.members;
  counted = v.counted;
  seats = v.seats;
  single = v.single;
}

without_players-Inv : (l : Lobby) → l.players ≡ [] → Inv l → Inv (record l { players = [] })
without_players-Inv l e v = record {
  same_length = v.same_length;
  few = v.few;
  slots = v.slots;
  base = v.base;
  teams = v.teams;
  colors = v.colors;
  members = tt;
  counted = ground (arith, e, v.counted);
  seats = λ pid hp. ground (arith, e, v.seats pid hp);
  single = λ pid hp. omega arith;
}

on_team_change-SafeReply :
    (l : Lobby) (pid t : ℕ) → Inv l → IsPlayer l pid → SafeReply (on_team_change l pid t)
unfolding on_team_change find_empty_team_slot
on_team_change-SafeReply l pid t v p =
    if-SafeReply l.locked _ _ (λ _. safe v)
      λ _.
        if-SafeReply (custom_forces l) _ _ (λ _. to_team _ refl)
          λ _.
            judged-SafeReply l pid players_occupied (λ sid. change_team l sid t) v p
              (λ sid h. change_team-OkInv l v sid h t)
  where
    to_team :
        (o : Option ℕ)
        → find_slot (λ s. is_open s && s.team == t) l.slots ≡ o
        → SafeReply (swap_to_team l pid o)
    to_team none e = safe v
    to_team (some new_sid) e = at_player-SafeReply l pid _ (player-pos l pid v p).1 λ sid h _.
        safe (
          swap_slots-Inv l sid new_sid false v h
            (find_slot-eq-some (λ s. is_open s && s.team == t) l.slots new_sid e).0)

-- An allowed call does not panic, and leaves the lobby well-formed.
pub step-SafeReply : (l : Lobby) (call : Call) → Inv l → Allowed l call → SafeReply (step l call)
unfolding step close_lobby change_all_slots open_slot close_slot host_swap_slots shuffle_slots
    host_change_race host_change_team host_change_color host_change_handicap host_change_computer
    on_map_state on_color_change on_race_change on_handicap_change
step-SafeReply l (locks b) v h = safe (with_lock-Inv l b v)
step-SafeReply l closes_lobby v h = safe (without_players-Inv l h v)
step-SafeReply l opens_all v h =
    if-SafeReply l.locked _ _ (λ _. safe v)
      λ _. safe (restatus-Inv l slot_closed slot_open v (omega arith))
step-SafeReply l closes_all v h =
    if-SafeReply l.locked _ _ (λ _. safe v)
      λ _. safe (restatus-Inv l slot_open slot_closed v (omega arith))
step-SafeReply l (opens sid kick) v h =
    on_slot-SafeReply l sid _ v λ lt. safe_pair _ (change_slot_status-Inv l sid slot_open kick v lt)
step-SafeReply l (closes sid kick) v h =
    on_slot-SafeReply l sid _ v
      λ lt. safe_pair _ (change_slot_status-Inv l sid slot_closed kick v lt)
step-SafeReply l (swaps i j) v h =
    if-SafeReply (out_of_slots l i) _ _ (λ _. safe v)
      λ e. on_slot-SafeReply l j _ v λ lt.
        safe (swap_slots-Inv l i j (not (custom_forces l)) v (ground (arith, e, v.same_length)) lt)
step-SafeReply l (shuffles shuffle_teams pairs) v h =
    if-SafeReply l.locked _ _ (λ _. safe v) λ _. safe (shuffle_pairs-Inv shuffle_teams l pairs v h)
step-SafeReply l (changes_race sid r) v h =
    taken-SafeReply l sid _ r _ v λ lt. change_race-OkInv l v sid lt r
step-SafeReply l (changes_team sid t) v h =
    taken-SafeReply l sid _ t _ v λ lt. change_team-OkInv l v sid lt t
step-SafeReply l (changes_color sid c) v h =
    taken-SafeReply l sid _ c _ v λ lt. change_color-OkInv l v sid lt c
step-SafeReply l (changes_handicap sid n) v h =
    taken-SafeReply l sid _ n _ v λ lt. change_handicap-OkInv l v sid lt n
step-SafeReply l (changes_computer sid ai) v h = on_slot-SafeReply l sid _ v λ lt.
    if-SafeReply (has_ai ai (get_slot l.slots sid)) _ _ (λ _. safe v)
      λ _. change_computer-SafeReply l sid ai v lt
step-SafeReply l (joins sent) v h = rw h (joined-SafeReply l v)
step-SafeReply l (leaves pid) v h = on_leave-SafeReply l pid v h
step-SafeReply l (reports_map pid progress) v h =
    at_player-SafeReply l pid _ (player-pos l pid v h).1
      λ sid lt e. safe (with_status-Inv l v sid lt progress)
step-SafeReply l (asks_team pid t) v h = on_team_change-SafeReply l pid t v h
step-SafeReply l (asks_color pid c) v h =
    if-SafeReply (fixed_settings l) _ _ (λ _. safe v)
      λ _.
        if-SafeReply l.locked _ _ (λ _. safe v)
          λ _.
            judged-SafeReply l pid color_occupied (λ sid. change_color l sid c) v h
              (λ sid lt. change_color-OkInv l v sid lt c)
step-SafeReply l (asks_race pid r) v h =
    if-SafeReply l.locked _ _ (λ _. safe v)
      λ _.
        judged-SafeReply l pid lobby_locked (λ sid. change_race l sid r) v h
          (λ sid lt. change_race-OkInv l v sid lt r)
step-SafeReply l (asks_handicap pid n) v h =
    if-SafeReply (fixed_settings l) _ _ (λ _. safe v)
      λ _.
        if-SafeReply l.locked _ _ (λ _. safe v)
          λ _.
            judged-SafeReply l pid lobby_locked (λ sid. change_handicap l sid n) v h
              (λ sid lt. change_handicap-OkInv l v sid lt n)

abbrev Kept : Reply → Type 0
Kept none = Unit
Kept (some (l, a)) = Inv l

SafeReply-Kept : {r : Reply} → SafeReply r → Kept r
SafeReply-Kept (safe v) = v

pub Reach-Inv : {l k : Lobby} → Inv l → Reach l k → Inv k
Reach-Inv v here = v
Reach-Inv v (next call r h e) =
    subst Kept e (SafeReply-Kept (step-SafeReply _ call (Reach-Inv v r) h))
