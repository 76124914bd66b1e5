-- ===== src/Lobby/Invariant/Sets.antt =====
-- The bit sets of ids, teams and colors, from which the free ones are taken.
use gowarcraft.Prelude.{
  ℕ, suc, ◌+◌, ◌-◌, ◌≤◌, ◌<◌, ◌≡◌, ◌||◌, false, ltb, All, if◌then◌else◌, List, [], ◌∷◌, length,
  arith, refl,
}
use gowarcraft.Protocol.BitSet.{
  test_bit, set_bit, clear_bit, ones, complement, trailing_zeros, insert, clear,
}
use gowarcraft.Protocol.BitSet.Laws.{
  test_bit-set_bit, test_bit-complement, test_bit-trailing_zeros, ones-set_bit-le,
  ones-le-clear_bit, ones-complement, trailing_zeros-lt, ones-zero, test_bit-zero,
}
use gowarcraft.W3gs.Slots.{SlotData}
use gowarcraft.Lobby.Slots.{
  Lobby, ok, player_set, find_empty_pid, is_playing, team_set, find_empty_team, clear_colors,
  available_colors, count_if, get_slot,
}
use gowarcraft.Lobby.Slots.Laws.{count_if-lt_length}
use gowarcraft.Lobby.Invariant.{IsPid, IsSlot, Inv, occurrences}

pid_bits : ℕ → List ℕ → ℕ
pid_bits b [] = b
pid_bits b (pid ∷ players) = pid_bits (set_bit (pid - 1) b) players

player_set-pid_bits :
    (b : ℕ) (players : List ℕ) → All IsPid players → player_set b players ≡ ok (pid_bits b players)
unfolding player_set pid_bits insert
player_set-pid_bits b [] h = refl
player_set-pid_bits b (pid ∷ players) (h, hs) =
    ground (arith, player_set-pid_bits (set_bit (pid - 1) b) players hs)

test_bit-pid_bits :
    (i b : ℕ) (players : List ℕ)
    → All IsPid players
    → test_bit i (pid_bits b players) ≡ (test_bit i b || ltb 0 (occurrences (suc i) players))
unfolding pid_bits
test_bit-pid_bits i b [] h = ground arith
test_bit-pid_bits i b (pid ∷ players) (h, hs) =
    ground
      (arith, test_bit-pid_bits i (set_bit (pid - 1) b) players hs, test_bit-set_bit i (pid - 1) b)

ones-pid_bits :
    (b : ℕ) (players : List ℕ) → ones 32 (pid_bits b players) ≤ ones 32 b + length players
unfolding pid_bits
ones-pid_bits b [] = omega arith
ones-pid_bits b (pid ∷ players) =
    omega (arith, ones-pid_bits (set_bit (pid - 1) b) players, ones-set_bit-le 32 (pid - 1) b)

-- A free index of a set of 32 bits that has fewer members.
free_bit :
    (b : ℕ)
    → ones 32 b < 32
    → (trailing_zeros 32 (complement 32 b) < 32)
      × (test_bit (trailing_zeros 32 (complement 32 b)) b ≡ false)
free_bit b h = (
  below,
  ground (
    arith,
    below,
    test_bit-trailing_zeros 32 (complement 32 b),
    test_bit-complement 32 (trailing_zeros 32 (complement 32 b)) b,
  ),
)
  where
    below : trailing_zeros 32 (complement 32 b) < 32
    below = trailing_zeros-lt 32 (complement 32 b) (omega (arith, ones-complement 32 b))

-- A lobby with fewer than 32 players has an id for one more.
pub new_pid : Lobby → ℕ
new_pid l = trailing_zeros 32 (complement 32 (pid_bits 0 l.players)) + 1

pub find_empty_pid-new_pid : (l : Lobby) → All IsPid l.players → find_empty_pid l ≡ ok (new_pid l)
unfolding find_empty_pid new_pid
find_empty_pid-new_pid l h = rw (player_set-pid_bits 0 l.players h)

pub new_pid_fresh :
    (l : Lobby)
    → All IsPid l.players
    → length l.players < 32
    → IsPid (new_pid l) × (occurrences (new_pid l) l.players ≡ 0)
unfolding new_pid
new_pid_fresh l h few = (
  (omega arith, omega (arith, free.0)),
  ground (
    arith,
    free.1,
    test_bit-pid_bits (trailing_zeros 32 (complement 32 (pid_bits 0 l.players))) 0 l.players h,
    test_bit-zero (trailing_zeros 32 (complement 32 (pid_bits 0 l.players))),
  ),
)
  where
    free :
        (trailing_zeros 32 (complement 32 (pid_bits 0 l.players)) < 32)
        × (test_bit
              (trailing_zeros 32 (complement 32 (pid_bits 0 l.players)))
              (pid_bits 0 l.players)
            ≡ false)
    free = free_bit (pid_bits 0 l.players) (omega (arith, ones-pid_bits 0 l.players, ones-zero 32))

-- A set of teams or colors is built without a panic.
team_bits : ℕ → ℕ → List SlotData → ℕ
team_bits obs b [] = b
team_bits obs b (s ∷ slots) =
    team_bits obs (if is_playing obs s then set_bit (s.team + 1 - 1) b else b) slots

team_set-team_bits :
    (obs b : ℕ) (slots : List SlotData)
    → All (IsSlot obs) slots
    → team_set obs b slots ≡ ok (team_bits obs b slots)
unfolding team_set team_bits insert
team_set-team_bits obs b [] h = refl
team_set-team_bits obs b (s ∷ slots) (h, hs) = ground (
  arith,
  h.team,
  team_set-team_bits obs b slots hs,
  team_set-team_bits obs (set_bit (s.team + 1 - 1) b) slots hs,
)

color_bits : ℕ → ℕ → List SlotData → ℕ
color_bits obs b [] = b
color_bits obs b (s ∷ slots) =
    color_bits obs (if is_playing obs s then clear_bit (s.color + 1 - 1) b else b) slots

clear_colors-color_bits :
    (obs b : ℕ) (slots : List SlotData)
    → All (IsSlot obs) slots
    → clear_colors obs b slots ≡ ok (color_bits obs b slots)
unfolding clear_colors color_bits clear
clear_colors-color_bits obs b [] h = refl
clear_colors-color_bits obs b (s ∷ slots) (h, hs) = ground (
  arith,
  h.color,
  clear_colors-color_bits obs b slots hs,
  clear_colors-color_bits obs (clear_bit (s.color + 1 - 1) b) slots hs,
)

ones-color_bits :
    (obs b : ℕ) (slots : List SlotData)
    → ones 32 b ≤ ones 32 (color_bits obs b slots) + count_if (is_playing obs) slots
unfolding color_bits count_if
ones-color_bits obs b [] = omega arith
ones-color_bits obs b (s ∷ slots) = ground (
  arith,
  ones-color_bits obs b slots,
  ones-color_bits obs (clear_bit (s.color + 1 - 1) b) slots,
  ones-le-clear_bit 32 (s.color + 1 - 1) b,
)

pub colors_left : Lobby → ℕ
colors_left l = color_bits l.obs_team l.color_set l.slots

pub available_colors-colors_left : (l : Lobby) → Inv l → available_colors l ≡ ok (colors_left l)
unfolding available_colors colors_left
available_colors-colors_left l v = clear_colors-color_bits l.obs_team l.color_set l.slots v.slots

-- A slot that is not taken leaves a color for itself.
pub new_color_lt :
    (l : Lobby) (sid : ℕ)
    → Inv l
    → sid < length l.slots
    → is_playing l.obs_team (get_slot l.slots sid) ≡ false
    → trailing_zeros 32 (colors_left l) < 32
unfolding colors_left
new_color_lt l sid v h e = trailing_zeros-lt 32 _ (
    omega (
      arith,
      v.colors,
      ones-color_bits l.obs_team l.color_set l.slots,
      count_if-lt_length (is_playing l.obs_team) l.slots sid h e,
    ))

pub new_team : Lobby → ℕ
new_team l = trailing_zeros 32 (complement 32 (team_bits l.obs_team 0 l.slots))

pub find_empty_team-new_team : (l : Lobby) → Inv l → find_empty_team l ≡ ok (new_team l)
unfolding find_empty_team new_team
find_empty_team-new_team l v = rw (team_set-team_bits l.obs_team 0 l.slots v.slots)
