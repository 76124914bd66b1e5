-- ===== src/Lobby/Slots/Laws.antt =====
-- Looking for slots, counting them and overwriting them.
use gowarcraft.Prelude.{
  ℕ, zero, suc, ◌+◌, ◌==◌, ◌≤◌, ◌<◌, ◌≡◌, Bool, true, false, some, none, All, if◌then◌else◌, List,
  [], ◌∷◌, length, set, arith, refl, ◌≢◌,
}
use gowarcraft.W3gs.Slots.{SlotData}
use gowarcraft.Lobby.Slots.{get_slot, find_slot, count_if}

abbrev pub bit : Bool → ℕ
bit b = if b then 1 else 0

pub length-set :
    (slots : List SlotData) (i : ℕ) (s : SlotData) → length (set slots i s) ≡ length slots
length-set [] i s = refl
length-set (x ∷ slots) zero s = omega arith
length-set (x ∷ slots) (suc i) s = omega (arith, length-set slots i s)

pub get_slot-set :
    (slots : List SlotData) (i j : ℕ) (s : SlotData)
    → i < length slots
    → get_slot (set slots i s) j ≡ (if i == j then s else get_slot slots j)
get_slot-set [] i j s h = absurd (omega arith)
get_slot-set (x ∷ slots) zero zero s h = ground arith
get_slot-set (x ∷ slots) zero (suc j) s h = ground arith
get_slot-set (x ∷ slots) (suc i) zero s h = ground arith
get_slot-set (x ∷ slots) (suc i) (suc j) s h = ground (arith, get_slot-set slots i j s)

pub All-get_slot :
    (P : SlotData → Type 0) (slots : List SlotData) (i : ℕ)
    → All P slots
    → i < length slots
    → P (get_slot slots i)
All-get_slot P [] i h l = absurd (omega arith)
All-get_slot P (x ∷ slots) zero (h, hs) l = h
All-get_slot P (x ∷ slots) (suc i) (h, hs) l = All-get_slot P slots i hs (omega arith)

pub All-set :
    (P : SlotData → Type 0) (slots : List SlotData) (i : ℕ) (s : SlotData)
    → All P slots
    → P s
    → All P (set slots i s)
All-set P [] i s h hs = tt
All-set P (x ∷ slots) zero s (h, hs) p = (p, hs)
All-set P (x ∷ slots) (suc i) s (h, hs) p = (h, All-set P slots i s hs p)

module _ (p : SlotData → Bool) where
  pub count_if-set :
      (slots : List SlotData) (i : ℕ) (s : SlotData)
      → i < length slots
      → count_if p (set slots i s) + bit (p (get_slot slots i)) ≡ count_if p slots + bit (p s)
  unfolding count_if
  count_if-set [] i s h = absurd (omega arith)
  count_if-set (x ∷ slots) zero s h = ground arith
  count_if-set (x ∷ slots) (suc i) s h = ground (arith, count_if-set slots i s)

  pub count_if-lt_length :
      (slots : List SlotData) (i : ℕ)
      → i < length slots
      → p (get_slot slots i) ≡ false
      → count_if p slots < length slots
  unfolding count_if
  count_if-lt_length [] i h e = absurd (omega arith)
  count_if-lt_length (x ∷ slots) zero h e = ground (arith, count_if-le slots)
    where
      count_if-le : (slots : List SlotData) → count_if p slots ≤ length slots
      count_if-le [] = omega arith
      count_if-le (x ∷ slots) = ground (arith, count_if-le slots)
  count_if-lt_length (x ∷ slots) (suc i) h e = ground (arith, count_if-lt_length slots i)

  pub find_slot-eq-some :
      (slots : List SlotData) (i : ℕ)
      → find_slot p slots ≡ some i
      → (i < length slots) × (p (get_slot slots i) ≡ true)
  unfolding find_slot
  find_slot-eq-some [] i e = ground arith
  find_slot-eq-some (x ∷ slots) zero e = ground arith
  find_slot-eq-some (x ∷ slots) (suc i) e = ground (arith, find_slot-eq-some slots i)

  pub find_slot-ne-none : (slots : List SlotData) → 0 < count_if p slots → find_slot p slots ≢ none
  unfolding find_slot count_if
  find_slot-ne-none [] h = absurd (omega arith)
  find_slot-ne-none (x ∷ slots) h = ground (arith, find_slot-ne-none slots)

  -- Two slots that change places, as far as `p` sees them.
  pub count_if-swap :
      (slots : List SlotData) (i j : ℕ) (x y : SlotData)
      → i < length slots
      → j < length slots
      → p x ≡ p (get_slot slots j)
      → p y ≡ p (get_slot slots i)
      → count_if p (set (set slots i x) j y) ≡ count_if p slots
  count_if-swap slots i j x y hi hj ex ey = ground (
    arith,
    count_if-set slots i x,
    count_if-set (set slots i x) j y,
    length-set slots i x,
    get_slot-set slots i j x,
  )
