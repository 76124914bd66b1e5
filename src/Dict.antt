-- ===== src/Dict.antt =====
-- Go maps, as lists of pairs in the order of some range over the map.
use gowarcraft.Prelude.{
  ◌≡◌, Bool, true, false, not, Option, none, some, if◌then◌else◌, List, [], ◌∷◌, arith, refl,
}

module _ {K V : Type 0} where
  -- m[k], with the test of keys that are the same
  abbrev pub lookup : (K → K → Bool) → K → List (K × V) → Option V
  lookup eq k [] = none
  lookup eq k ((j, v) ∷ d) = if eq k j then some v else lookup eq k d

  -- m[k] = v
  abbrev pub assign : (K → K → Bool) → K → V → List (K × V) → List (K × V)
  assign eq k v [] = (k, v) ∷ []
  assign eq k v ((j, w) ∷ d) = if eq k j then (k, v) ∷ d else (j, w) ∷ assign eq k v d

  -- for k, v := range m { if !p(k, v) { delete(m, k) } }
  abbrev pub filter : (K → V → Bool) → List (K × V) → List (K × V)
  filter p [] = []
  filter p ((j, v) ∷ d) = if p j v then (j, v) ∷ filter p d else filter p d

  -- delete(m, k)
  abbrev pub erase : (K → K → Bool) → K → List (K × V) → List (K × V)
  erase eq k d = filter (λ j v. not (eq k j)) d

-- The value, if it passes a test.
abbrev pub only_if : {V : Type 0} → (V → Bool) → Option V → Option V
only_if p none = none
only_if p (some v) = if p v then some v else none

-- The test is equality.
pub record IsKey {K : Type 0} (eq : K → K → Bool) : Type 0 where
  pub self : (k : K) → eq k k ≡ true
  pub same : (j k : K) → eq j k ≡ true → j ≡ k

module _ {K V : Type 0} (eq : K → K → Bool) (key : IsKey eq) where
  pub lookup-assign :
      (j k : K) (v : V) (d : List (K × V))
      → lookup eq j (assign eq k v d) ≡ (if eq j k then some v else lookup eq j d)
  lookup-assign j k v [] = refl
  lookup-assign j k v ((i, w) ∷ d) =
      ground (arith, lookup-assign j k v d, key.same k i, key.same j i, key.self i, key.same j k)

  pub lookup-erase :
      (j k : K) (d : List (K × V))
      → lookup eq j (erase eq k d) ≡ (if eq j k then none else lookup eq j d)
  lookup-erase j k [] = ground arith
  lookup-erase j k ((i, w) ∷ d) =
      ground (arith, lookup-erase j k d, key.same k i, key.same j i, key.self i, key.same j k)

  -- No key stands twice.
  abbrev pub IsDict : List (K × V) → Type 0
  IsDict [] = Unit
  IsDict ((k, v) ∷ d) = (lookup eq k d ≡ none) × IsDict d

  lookup-filter-none :
      (p : K → V → Bool) (k : K) (d : List (K × V))
      → lookup eq k d ≡ none
      → lookup eq k (filter p d) ≡ none
  lookup-filter-none p k [] h = refl
  lookup-filter-none p k ((j, v) ∷ d) h = ground (arith, h, lookup-filter-none p k d)

  pub lookup-filter :
      (p : V → Bool) (k : K) (d : List (K × V))
      → IsDict d
      → lookup eq k (filter (λ j v. p v) d) ≡ only_if p (lookup eq k d)
  lookup-filter p k [] h = refl
  lookup-filter p k ((j, v) ∷ d) (n, h) =
      ground (arith, n, lookup-filter p k d h, lookup-filter-none (λ j v. p v) k d, key.same k j)

  pub assign-IsDict : (k : K) (v : V) (d : List (K × V)) → IsDict d → IsDict (assign eq k v d)
  assign-IsDict k v [] h = (refl, tt)
  assign-IsDict k v ((j, w) ∷ d) (n, h) = by_test (eq k j) refl (assign-IsDict k v d h)
    where
      by_test :
          (c : Bool)
          → eq k j ≡ c
          → IsDict (assign eq k v d)
          → IsDict (if c then (k, v) ∷ d else (j, w) ∷ assign eq k v d)
      by_test true e rest = (ground (arith, e, n, key.same k j), h)
      by_test false e rest =
          (ground (arith, e, n, lookup-assign j k v d, key.same j k, key.self k), rest)

  pub filter-IsDict : (p : K → V → Bool) (d : List (K × V)) → IsDict d → IsDict (filter p d)
  filter-IsDict p [] h = tt
  filter-IsDict p ((j, v) ∷ d) (n, h) = by_test (p j v) (filter-IsDict p d h)
    where
      by_test :
          (c : Bool) → IsDict (filter p d) → IsDict (if c then (j, v) ∷ filter p d else filter p d)
      by_test true rest = (lookup-filter-none p j d n, rest)
      by_test false rest = rest
