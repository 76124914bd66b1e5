-- ===== src/Lobby/Locks.antt =====
-- Calls on a lobby that is locked, and calls that are accepted without a change.
use gowarcraft.Prelude.{ℕ, ◌≡◌, true, false, Bool, some, if◌then◌else◌, arith, refl}
use gowarcraft.Lobby.Slots.{Lobby, fixed_settings}
use gowarcraft.Lobby.Changes.{Answer, take_seat, join}
use gowarcraft.Lobby.Hosting.{
  Reply, on_slot, out_of_slots, joined, change_all_slots, open_slot, close_slot, host_swap_slots,
  shuffle_slots, host_change_race, host_change_team, host_change_color, host_change_handicap,
  host_change_computer, on_team_change, on_color_change, on_race_change, on_handicap_change,
}
use gowarcraft.Lobby.Steps.{
  Call, step, locks, closes_lobby, opens_all, closes_all, opens, closes, swaps, shuffles,
  changes_race, changes_team, changes_color, changes_handicap, changes_computer, joins, leaves,
  reports_map, asks_team, asks_color, asks_race, asks_handicap,
}

-- The calls that a lock stops: all but Lock and Unlock themselves, Close, a player that leaves and
-- the state of its map.
abbrev pub is_stopped : Call → Bool
is_stopped (locks b) = false
is_stopped closes_lobby = false
is_stopped (leaves pid) = false
is_stopped (reports_map pid progress) = false
is_stopped call = true

-- The reply leaves the lobby as it was.
data Same (l : Lobby) : Reply → Type 0 where
  same : {a : Answer} → Same l (some (l, a))

if-Same :
    (l : Lobby) (c : Bool) (x y : Reply)
    → (c ≡ true → Same l x)
    → (c ≡ false → Same l y)
    → Same l (if c then x else y)
if-Same l true x y hx hy = hx refl
if-Same l false x y hx hy = hy refl

if_locked-Same :
    (l : Lobby) (a : Answer) (r : Reply)
    → l.locked ≡ true
    → Same l (if l.locked then some (l, a) else r)
if_locked-Same l a r h = if-Same l l.locked _ _ (λ _. same) λ e. absurd (ground (arith, h, e))

on_slot-Same : (l : Lobby) (sid : ℕ) (r : Reply) → l.locked ≡ true → Same l (on_slot l sid r)
on_slot-Same l sid r h = if-Same l (out_of_slots l sid) _ _ (λ _. same) λ _. if_locked-Same l _ r h

joined-Same : (l : Lobby) (sent : Bool) → l.locked ≡ true → Same l (joined l (join sent l))
unfolding join take_seat
joined-Same l sent h = rw h same

step-Same :
    (l : Lobby) (call : Call) → is_stopped call ≡ true → l.locked ≡ true → Same l (step l call)
unfolding step change_all_slots open_slot close_slot host_swap_slots shuffle_slots host_change_race
    host_change_team host_change_color host_change_handicap host_change_computer on_team_change
    on_color_change on_race_change on_handicap_change
step-Same l (locks b) s h = absurd (ground (arith, s))
step-Same l closes_lobby s h = absurd (ground (arith, s))
step-Same l opens_all s h = if_locked-Same l _ _ h
step-Same l closes_all s h = if_locked-Same l _ _ h
step-Same l (opens sid kick) s h = on_slot-Same l sid _ h
step-Same l (closes sid kick) s h = on_slot-Same l sid _ h
step-Same l (swaps i j) s h = if-Same l (out_of_slots l i) _ _ (λ _. same) λ _. on_slot-Same l j _ h
step-Same l (shuffles shuffle_teams pairs) s h = if_locked-Same l _ _ h
step-Same l (changes_race sid r) s h = on_slot-Same l sid _ h
step-Same l (changes_team sid t) s h = on_slot-Same l sid _ h
step-Same l (changes_color sid c) s h = on_slot-Same l sid _ h
step-Same l (changes_handicap sid n) s h = on_slot-Same l sid _ h
step-Same l (changes_computer sid ai) s h = on_slot-Same l sid _ h
step-Same l (joins sent) s h = joined-Same l sent h
step-Same l (leaves pid) s h = absurd (ground (arith, s))
step-Same l (reports_map pid progress) s h = absurd (ground (arith, s))
step-Same l (asks_team pid t) s h = if_locked-Same l _ _ h
step-Same l (asks_color pid c) s h =
    if-Same l (fixed_settings l) _ _ (λ _. same) λ _. if_locked-Same l _ _ h
step-Same l (asks_race pid r) s h = if_locked-Same l _ _ h
step-Same l (asks_handicap pid n) s h =
    if-Same l (fixed_settings l) _ _ (λ _. same) λ _. if_locked-Same l _ _ h

Same-eq : {l : Lobby} {r : Reply} → Same l r → (a : Answer) × (r ≡ some (l, a))
Same-eq (same {a}) = (a, refl)

-- In a locked lobby every call but Lock, Unlock, Close, a player that leaves and the state of
-- its map leaves the lobby exactly as it was.
pub step-locked :
    (l : Lobby) (call : Call)
    → is_stopped call ≡ true
    → l.locked ≡ true
    → (a : Answer) × (step l call ≡ some (l, a))
step-locked l call s h = Same-eq (step-Same l call s h)
