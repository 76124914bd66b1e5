-- ===== src/Lobby/Invariant/Joining.antt =====
-- New players and computers: initSlot and the part of join that seats a player.
use gowarcraft.Prelude.{
  ℕ, ◌==◌, ◌<◌, ◌≡◌, ◌||◌, Bool, true, false, Option, some, none, ltb, ◌∷◌, length, set, arith,
  refl,
}
use gowarcraft.W3gs.Slots.{SlotData}
use gowarcraft.Lobby.Slots.{
  Lobby, Result, ok, err, panic, ◌>>=◌, ◌>>◌, refuse_if, or_err, LobbyError, full, get_slot,
  with_slot, init_slot, init_color, init_team, find_empty_slot, find_empty_pid, find_empty_color,
  find_slot, is_open, slot_occupied, lobby_locked,
}
use gowarcraft.Lobby.Slots.Laws.{
  length-set, get_slot-set, All-get_slot, find_slot-eq-some, count_if-lt_length,
}
use gowarcraft.Lobby.Changes.{take_seat}
use gowarcraft.Lobby.Invariant.{Inv, IsSlot, IsPid, is_seat, occurrences, refill-Inv, update-Inv}
use gowarcraft.Lobby.Invariant.Sets.{
  available_colors-colors_left, new_color_lt, find_empty_team-new_team, find_empty_pid-new_pid,
  new_pid, new_pid_fresh,
}
use gowarcraft.Lobby.Invariant.Changes.{original-IsBase}

module _ (l : Lobby) (v : Inv l) (sid : ℕ) (h : sid < length l.slots) where
  -- What initSlot puts into a slot that is not occupied.
  pub data InitOk : Result Lobby → Type 0 where
    placed :
        (s : SlotData)
        → IsSlot l.obs_team s
        → is_seat s ≡ false
        → s.slot_status ≡ slot_occupied
        → s.computer ≡ false
        → InitOk (ok (with_slot l sid s))
    not_placed : (e : LobbyError) → InitOk (err e)

  abbrev ColorOk : Result ℕ → Type 0
  ColorOk (ok c) = c < 32
  ColorOk (err e) = ⊥
  ColorOk panic = ⊥

  abbrev TeamOk : Result ℕ → Type 0
  TeamOk (ok t) = (ltb t 32 || t == l.obs_team) ≡ true
  TeamOk (err e) = Unit
  TeamOk panic = ⊥

  new_slot : ℕ → ℕ → SlotData
  new_slot color team =
      let base = get_slot l.slot_base.slots sid in
      record {
        player_id = 255;
        download_status = 255;
        slot_status = slot_occupied;
        computer = false;
        team = team;
        color = color;
        race = base.race;
        computer_type = 0;
        handicap = base.handicap;
      }

  place :
      (c t : Result ℕ)
      → ColorOk c
      → TeamOk t
      → InitOk (c >>= λ color. t >>= λ team. ok (with_slot l sid (new_slot color team)))
  unfolding new_slot
  place (ok c) (ok t) hc ht =
      placed _ (record { color = hc; team = ht; taken = λ e. refl; human = λ e. refl }) refl refl
        refl
  place (ok c) (err e) hc ht = not_placed e
  place (ok c) panic hc ht = absurd ht
  place (err e) t hc ht = absurd hc
  place panic t hc ht = absurd hc

  module _ (vacant : (get_slot l.slots sid).slot_status == slot_occupied ≡ false) where
    init_color-ColorOk : ColorOk (init_color l (get_slot l.slot_base.slots sid))
    unfolding init_color find_empty_color
    init_color-ColorOk = rw (available_colors-colors_left l v) (
        ground (
          arith,
          (original-IsBase l v sid h).color,
          new_color_lt l sid v h (ground (arith, vacant)),
        ))

    init_team-TeamOk : TeamOk (init_team l (get_slot l.slot_base.slots sid))
    unfolding init_team
    init_team-TeamOk =
        rw (find_empty_team-new_team l v)
          (ground (arith, (original-IsBase l v sid h).team, v.teams))

    pub init_slot-InitOk : InitOk (init_slot l sid)
    unfolding init_slot new_slot
    init_slot-InitOk = place _ _ init_color-ColorOk init_team-TeamOk

    -- The slot had no player.
    pub vacant_slot : is_seat (get_slot l.slots sid) ≡ false
    vacant_slot =
        ground (arith, vacant, (All-get_slot (IsSlot l.obs_team) l.slots sid v.slots h).taken)

-- A player gets an id of its own, and a slot with this id.
pub data SeatOk (l : Lobby) : Result (Lobby × ℕ) → Type 0 where
  no_seat : (e : LobbyError) → SeatOk l (err e)
  seat :
      (l' : Lobby) (pid : ℕ)
      → l'.players ≡ l.players
      → Inv (record l' { players = pid ∷ l.players })
      → IsPid pid
      → occurrences pid l.players ≡ 0
      → SeatOk l (ok (l', pid))

-- A lobby where the slot `sid` is filled and has no player's id yet.
module _ (l : Lobby) (v : Inv l) (sid : ℕ) (h : sid < length l.slots) where
  module _ (free : is_seat (get_slot l.slots sid) ≡ false) where
    few_players : length l.players < 32
    few_players = omega (arith, v.counted, v.few, count_if-lt_length is_seat l.slots sid h free)

    pid_slot : SlotData
    pid_slot = record (get_slot l.slots sid) { player_id = new_pid l }

    fresh : IsPid (new_pid l) × (occurrences (new_pid l) l.players ≡ 0)
    fresh = new_pid_fresh l v.members few_players

    module _ (taken : (get_slot l.slots sid).slot_status ≡ slot_occupied)
        (human : (get_slot l.slots sid).computer ≡ false) where
      pid_slot-IsSlot : IsSlot l.obs_team pid_slot
      unfolding pid_slot
      pid_slot-IsSlot = record {
        color = (All-get_slot (IsSlot l.obs_team) l.slots sid v.slots h).color;
        team = (All-get_slot (IsSlot l.obs_team) l.slots sid v.slots h).team;
        taken = λ e. taken;
        human = λ e. human;
      }

      seated-Inv : Inv (record (with_slot l sid pid_slot) { players = new_pid l ∷ l.players })
      unfolding pid_slot
      seated-Inv =
          update-Inv l sid pid_slot (new_pid l ∷ l.players) v h pid_slot-IsSlot (fresh.0, v.members)
            (ground (arith, fresh, free)) (λ pid hp. ground (arith, hp, free))
            (λ pid hp. ground (arith, fresh.1, v.single pid hp))

      pub seated-SeatOk :
          (l0 : Lobby)
          → l.players ≡ l0.players
          → SeatOk l0 (
              find_empty_pid l >>= λ pid.
              ok (with_slot l sid (record (get_slot l.slots sid) { player_id = pid }), pid))
      unfolding pid_slot
      seated-SeatOk l0 e =
          rw (find_empty_pid-new_pid l v.members)
            (seat _ (new_pid l) e (rw (← e) seated-Inv) fresh.0 (rw (← e) fresh.1))

init-SeatOk :
    (l : Lobby) (v : Inv l) (sid : ℕ) (h : sid < length l.slots) (r : Result Lobby)
    → is_seat (get_slot l.slots sid) ≡ false
    → InitOk l v sid h r
    → SeatOk l (
        r >>= λ l'. find_empty_pid l' >>= λ pid.
        ok (with_slot l' sid (record (get_slot l'.slots sid) { player_id = pid }), pid))
init-SeatOk l v sid h _ vacant (not_placed e) = no_seat e
init-SeatOk l v sid h _ vacant (placed s hs free taken human) =
    seated-SeatOk (with_slot l sid s) (refill-Inv l sid s v h hs vacant free) sid
      (omega (arith, h, length-set l.slots sid s)) (rw at_sid free) (rw at_sid taken)
      (rw at_sid human) l refl
  where
    at_sid : get_slot (set l.slots sid s) sid ≡ s
    at_sid = ground (arith, get_slot-set l.slots sid sid s h)

unlocked-SeatOk :
    (l : Lobby) (c : Bool) (k : Result (Lobby × ℕ))
    → SeatOk l k
    → SeatOk l (refuse_if c lobby_locked >> k)
unlocked-SeatOk l true k h = no_seat lobby_locked
unlocked-SeatOk l false k h = h

found-SeatOk :
    (l : Lobby) (o : Option ℕ) (f : ℕ → Result (Lobby × ℕ))
    → ((sid : ℕ) → o ≡ some sid → SeatOk l (f sid))
    → SeatOk l (or_err o full >>= f)
found-SeatOk l none f h = no_seat full
found-SeatOk l (some sid) f h = h sid refl

pub take_seat-SeatOk : (l : Lobby) → Inv l → SeatOk l (take_seat l)
unfolding take_seat find_empty_slot
take_seat-SeatOk l v = unlocked-SeatOk l l.locked _ (
    found-SeatOk l (find_slot is_open l.slots) _
      λ sid e. open_slot sid (find_slot-eq-some is_open l.slots sid e))
  where
    open_slot :
        (sid : ℕ)
        → (sid < length l.slots) × (is_open (get_slot l.slots sid) ≡ true)
        → SeatOk l (
            init_slot l sid >>= λ l'. find_empty_pid l' >>= λ pid.
            ok (with_slot l' sid (record (get_slot l'.slots sid) { player_id = pid }), pid))
    open_slot sid (h, op) =
        init-SeatOk l v sid h (init_slot l sid) (vacant_slot l v sid h (ground (arith, op)))
          (init_slot-InitOk l v sid h (ground (arith, op)))
