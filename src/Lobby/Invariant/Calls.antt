-- ===== src/Lobby/Invariant/Calls.antt =====
-- The calls of the host and of the players, from a lobby that is well-formed.
use gowarcraft.Prelude.{
  ℕ, ◌+◌, ◌==◌, ◌<◌, ◌≡◌, Bool, true, false, some, All, if◌then◌else◌, List, [], ◌∷◌, length, arith,
  refl, inl, inr,
}
use gowarcraft.Lobby.Slots.{Lobby, get_slot, count_if, has_pid, slot_occupied}
use gowarcraft.Lobby.Changes.{Answer}
use gowarcraft.Lobby.Invariant.{Inv, IsPid, occurrences}
use gowarcraft.Lobby.Invariant.Changes.{original-IsBase}
use gowarcraft.Lobby.Slots.{pid_to_sid, find_slot, Result, ◌>>=◌, LobbyError}
use gowarcraft.Lobby.Slots.Laws.{find_slot-eq-some, find_slot-ne-none}
use gowarcraft.Lobby.Changes.{delete, join, welcome, take_seat}
use gowarcraft.Lobby.Hosting.{
  Reply, at_player, on_leave, answer, on_slot, out_of_slots, judge, joined, on_taken_slot,
  unless_equal,
}
use gowarcraft.Lobby.Invariant.{update-Inv}
use gowarcraft.Lobby.Invariant.Changes.{OkInv, kept, refuses}
use gowarcraft.Lobby.Invariant.Joining.{SeatOk, seat, no_seat, take_seat-SeatOk}
use gowarcraft.Lobby.Invariant.Status.{base-IsSlot}
use gowarcraft.Lobby.Steps.{IsPlayer}
use gowarcraft.Prelude.{Option-cases}

-- A reply that is no panic, and that leaves the lobby well-formed.
pub data SafeReply : Reply → Type 0 where
  safe : {l : Lobby} {a : Answer} → Inv l → SafeReply (some (l, a))

pub safe_pair : (r : Lobby × Answer) → Inv r.0 → SafeReply (some r)
safe_pair (l, a) v = safe v

pub if-SafeReply :
    (c : Bool) (x y : Reply)
    → (c ≡ true → SafeReply x)
    → (c ≡ false → SafeReply y)
    → SafeReply (if c then x else y)
if-SafeReply true x y hx hy = hx refl
if-SafeReply false x y hx hy = hy refl

pub answer-SafeReply : (l : Lobby) (r : Result Lobby) → Inv l → OkInv r → SafeReply (answer l r)
answer-SafeReply l _ v (kept v') = safe v'
answer-SafeReply l _ v (refuses e) = safe v

pub judge-SafeReply :
    (l : Lobby) (pid : ℕ) (allowed : LobbyError) (r : Result Lobby)
    → Inv l
    → OkInv r
    → SafeReply (judge l pid allowed r)
judge-SafeReply l pid allowed _ v (kept v') = safe v'
judge-SafeReply l pid allowed _ v (refuses e) = safe v

pub on_slot-SafeReply :
    (l : Lobby) (sid : ℕ) (r : Reply)
    → Inv l
    → (sid < length l.slots → SafeReply r)
    → SafeReply (on_slot l sid r)
on_slot-SafeReply l sid r v h =
    if-SafeReply (out_of_slots l sid) _ _ (λ e. safe v)
      λ e. if-SafeReply l.locked _ _ (λ _. safe v) λ _. h (ground (arith, e, v.same_length))

-- The four changes that the host makes to a taken slot.
pub taken-SafeReply :
    (l : Lobby) (sid old new : ℕ) (r : Result Lobby)
    → Inv l
    → (sid < length l.slots → OkInv r)
    → SafeReply (on_taken_slot l sid (unless_equal l old new (answer l r)))
taken-SafeReply l sid old new r v h = on_slot-SafeReply l sid _ v λ lt.
    if-SafeReply ((get_slot l.slots sid).slot_status == slot_occupied) _ _
      (λ _. if-SafeReply (old == new) _ _ (λ _. safe v) λ _. answer-SafeReply l r v (h lt))
      λ _. safe v

pub player-pos :
    (l : Lobby) (pid : ℕ)
    → Inv l
    → IsPlayer l pid
    → IsPid pid × (0 < count_if (has_pid pid) l.slots)
player-pos l pid v h = (is_pid, omega (arith, v.seats pid is_pid, h))
  where
    member : (players : List ℕ) → All IsPid players → 0 < occurrences pid players → IsPid pid
    member [] hs lt = absurd (omega arith)
    member (p ∷ players) (hp, hs) lt = ground (arith, member players hs)

    is_pid : IsPid pid
    is_pid = member l.players v.members h

-- A player's slot is found.
pub at_player-SafeReply :
    (l : Lobby) (pid : ℕ) (f : ℕ → Reply)
    → 0 < count_if (has_pid pid) l.slots
    → ((sid : ℕ)
        → sid < length l.slots
        → has_pid pid (get_slot l.slots sid) ≡ true
        → SafeReply (f sid))
    → SafeReply (at_player l pid f)
unfolding pid_to_sid
at_player-SafeReply l pid f pos h = elim (Option-cases (find_slot (has_pid pid) l.slots)) [
  | inl lost ↦ absurd (find_slot-ne-none (has_pid pid) l.slots pos lost)
  | inr (sid, found) ↦
      rw (found, at_player)
        (let w = find_slot-eq-some (has_pid pid) l.slots sid found in h sid w.0 w.1)
]

pub judged-SafeReply :
    (l : Lobby) (pid : ℕ) (allowed : LobbyError) (f : ℕ → Result Lobby)
    → Inv l
    → IsPlayer l pid
    → ((sid : ℕ) → sid < length l.slots → OkInv (f sid))
    → SafeReply (at_player l pid (λ sid. judge l pid allowed (f sid)))
judged-SafeReply l pid allowed f v p h =
    at_player-SafeReply l pid _ (player-pos l pid v p).1
      λ sid lt e. judge-SafeReply l pid allowed (f sid) v (h sid lt)

pub joined-SafeReply : (l : Lobby) → Inv l → SafeReply (joined l (join true l))
unfolding join
joined-SafeReply l v = after_seat (take_seat l) (take_seat-SeatOk l v)
  where
    after_seat : (r : Result (Lobby × ℕ)) → SeatOk l r → SafeReply (joined l (r >>= welcome true))
    after_seat _ (no_seat e) = safe v
    after_seat _ (seat l' pid e w hp new) = safe (rw e w)

delete_lem :
    (pid : ℕ) (players : List ℕ)
    → length (delete pid players) + occurrences pid players ≡ length players
unfolding delete
delete_lem pid [] = refl
delete_lem pid (p ∷ players) = ground (arith, delete_lem pid players)

pub occurrences-delete :
    (pid gone : ℕ) (players : List ℕ)
    → occurrences pid (delete gone players) ≡ (if pid == gone then 0 else occurrences pid players)
unfolding delete
occurrences-delete pid gone [] = ground arith
occurrences-delete pid gone (p ∷ players) = ground (arith, occurrences-delete pid gone players)

All-delete : (gone : ℕ) (players : List ℕ) → All IsPid players → All IsPid (delete gone players)
unfolding delete
All-delete gone [] h = tt
All-delete gone (p ∷ players) (h, hs) = ground (arith, All-delete gone players hs)

pub on_leave-SafeReply : (l : Lobby) (pid : ℕ) → Inv l → IsPlayer l pid → SafeReply (on_leave l pid)
unfolding on_leave
on_leave-SafeReply l pid v p =
    at_player-SafeReply (record l { players = delete pid l.players }) pid _ known.1
      λ sid h e. safe (
        update-Inv l sid _ (delete pid l.players) v h
          (base-IsSlot l.obs_team _ (original-IsBase l v sid h))
          (All-delete pid l.players v.members)
          (ground (
            arith,
            known.0,
            e,
            p,
            v.single pid known.0,
            delete_lem pid l.players,
            (original-IsBase l v sid h).free,
          ))
          (λ q hq. ground (
            arith,
            e,
            p,
            v.single pid known.0,
            occurrences-delete q pid l.players,
            hq,
            (original-IsBase l v sid h).free,
          ))
          (λ q hq. ground (arith, occurrences-delete q pid l.players, v.single q hq)))
  where
    known : IsPid pid × (0 < count_if (has_pid pid) l.slots)
    known = player-pos l pid v p
