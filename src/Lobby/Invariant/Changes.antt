-- ===== src/Lobby/Invariant/Changes.antt =====
-- The changes of single slots, and the players that join.
use gowarcraft.Prelude.{
  ℕ, ◌+◌, ◌-◌, ◌==◌, ◌<◌, ◌≡◌, ◌&&◌, ◌||◌, not, Bool, true, false, ltb, leb, length, arith, refl,
  Bool-cases, inl, inr,
}
use gowarcraft.Protocol.BitSet.{test, test_bit, set_bit, ones}
use gowarcraft.Prelude.{◌%◌}
use gowarcraft.Lobby.Slots.{invalid_argument, players_occupied, color_occupied}
use gowarcraft.W3gs.Slots.{SlotData}
use gowarcraft.Lobby.Slots.{
  Lobby, Result, ok, err, ◌>>◌, refuse_if, LobbyError, get_slot, with_slot, custom_forces,
  count_players, obs_disabled,
}
use gowarcraft.Lobby.Slots.Laws.{All-get_slot}
use gowarcraft.Lobby.Changes.{change_race, change_team, change_color, change_handicap, race_fixed}
use gowarcraft.Lobby.Invariant.{Inv, IsSlot, IsBase, put-Inv}
use gowarcraft.Lobby.Invariant.Sets.{available_colors-colors_left, colors_left}

-- A result that is no panic, and that keeps the invariant.
pub data OkInv : Result Lobby → Type 0 where
  kept : {l : Lobby} → Inv l → OkInv (ok l)
  refuses : (e : LobbyError) → OkInv (err e)

pub refused-OkInv :
    (c : Bool) (e : LobbyError) (k : Result Lobby)
    → (c ≡ false → OkInv k)
    → OkInv (refuse_if c e >> k)
refused-OkInv true e k h = refuses e
refused-OkInv false e k h = h refl

module _ (l : Lobby) (v : Inv l) (sid : ℕ) (h : sid < length l.slots) where
  slot-IsSlot : IsSlot l.obs_team (get_slot l.slots sid)
  slot-IsSlot = All-get_slot (IsSlot l.obs_team) l.slots sid v.slots h

  pub original-IsBase : IsBase l.obs_team (get_slot l.slot_base.slots sid)
  original-IsBase =
      All-get_slot (IsBase l.obs_team) l.slot_base.slots sid v.base (omega (arith, v.same_length))

  -- The slot changes in fields that leave it well-formed.
  abbrev edited : SlotData → Result Lobby
  edited s = ok (with_slot l sid s)

  pub change_race-OkInv : (r : ℕ) → OkInv (change_race l sid r)
  unfolding change_race
  change_race-OkInv r =
      refused-OkInv (race_fixed s || not (ones 6 r == 1) || test_bit 4 r) invalid_argument
        (edited (record s { race = set_bit 6 r }))
        λ c. kept (
          put-Inv l sid (record s { race = set_bit 6 r }) v h
            (record { color = w.color; team = w.team; taken = w.taken; human = w.human }) refl)
    where
      s : SlotData
      s = get_slot l.slots sid

      w : IsSlot l.obs_team (get_slot l.slots sid)
      w = slot-IsSlot

  pub change_handicap-OkInv : (n : ℕ) → OkInv (change_handicap l sid n)
  unfolding change_handicap
  change_handicap-OkInv n =
      refused-OkInv (ltb 100 n) invalid_argument
        (edited (record (get_slot l.slots sid) { handicap = n }))
        λ c. kept (
          put-Inv l sid (record (get_slot l.slots sid) { handicap = n }) v h
            (record {
              color = slot-IsSlot.color;
              team = slot-IsSlot.team;
              taken = slot-IsSlot.taken;
              human = slot-IsSlot.human;
            })
            refl)

  with_team-Inv :
      (t : ℕ)
      → (leb l.slot_base.num_players t && (l.obs_team == obs_disabled || not (t == l.obs_team)))
        ≡ false
      → Inv (with_slot l sid (record (get_slot l.slots sid) { team = t }))
  with_team-Inv t c =
      put-Inv l sid (record (get_slot l.slots sid) { team = t }) v h
        (record {
          color = slot-IsSlot.color;
          team = ground (arith, c, v.teams);
          taken = slot-IsSlot.taken;
          human = slot-IsSlot.human;
        })
        refl

  pub change_team-OkInv : (t : ℕ) → OkInv (change_team l sid t)
  unfolding change_team
  change_team-OkInv t = elim (Bool-cases (custom_forces l)) [
    | inl e ↦ rw e (refuses invalid_argument)
    | inr e ↦
        rw e
          (elim (Bool-cases (
            leb l.slot_base.num_players t
            && (l.obs_team == obs_disabled || not (t == l.obs_team)))) [
              | inl c ↦ rw c (refuses invalid_argument)
              | inr c ↦ rw c (
                  refused-OkInv
                    (ltb l.slot_base.num_players (
                      count_players (with_slot l sid (record (get_slot l.slots sid) { team = t }))
                      % 256))
                    players_occupied (edited (record (get_slot l.slots sid) { team = t }))
                    λ _. kept (with_team-Inv t c))
            ])
  ]

  pub change_color-OkInv : (c : ℕ) → OkInv (change_color l sid c)
  unfolding change_color test
  change_color-OkInv c = elim (Bool-cases (leb 32 c)) [
    | inl e ↦ rw e (refuses invalid_argument)
    | inr e ↦
        rw (e, available_colors-colors_left l v, in_range e)
          (refused-OkInv (not (test_bit (c + 1 - 1) (colors_left l))) color_occupied
            (edited (record (get_slot l.slots sid) { color = c }))
            λ free. kept (
              put-Inv l sid (record (get_slot l.slots sid) { color = c }) v h
                (record {
                  color = ground (arith, e);
                  team = slot-IsSlot.team;
                  taken = slot-IsSlot.taken;
                  human = slot-IsSlot.human;
                })
                refl))
  ]
    where
      in_range : leb 32 c ≡ false → (ltb (c + 1) 1 || ltb 32 (c + 1)) ≡ false
      in_range small = ground (arith, small)
