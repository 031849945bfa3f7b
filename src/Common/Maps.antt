-- ===== src/Common/Maps.antt =====
-- `std::map` and `std::unordered_map` with a number for a key, as association lists. The order of
-- the entries stands for the order of an iteration, which the program leaves to the container.
use Prim.Native.Nat.{ℕ}
use mathlib.Core.Path.{◌≡◌, refl}
use mathlib.Core.Option.{Option, none, some}
use mathlib.Core.List.{List, [], ◌∷◌}
use native.Mathlib.Omega.{arith}
use gologincase.Common.Tests.{◌==◌, if◌then◌else◌}

abbrev pub Table {ℓ} : Type ℓ → Type ℓ
Table V = List (ℕ × V)

module _ {ℓ} {V : Type ℓ} where
  unfoldable pub find : ℕ → Table V → Option V
  find k [] = none
  find k ((j, v) ∷ m) = if j == k then some v else find k m

  -- `emplace` leaves an entry that is there as it is.
  unfoldable pub emplace : ℕ → V → Table V → Table V
  emplace k v m = elim (find k m) [ none ↦ (k, v) ∷ m | some w ↦ m ]

  unfoldable pub erase : ℕ → Table V → Table V
  erase k [] = []
  erase k ((j, v) ∷ m) = let rest = erase k m in if j == k then rest else (j, v) ∷ rest

  abbrev pub values : Table V → List V
  values [] = []
  values ((j, v) ∷ m) = v ∷ values m

  pub find-emplace :
      (k j : ℕ) (v : V) (m : Table V)
      → find j (emplace k v m)
        ≡ elim (find k m) [ none ↦ (if k == j then some v else find j m) | some w ↦ find j m ]
  unfolding find emplace
  find-emplace k j v m = ground arith

  pub find-erase :
      (k j : ℕ) (m : Table V) → find j (erase k m) ≡ (if k == j then none else find j m)
  unfolding find erase
  find-erase k j [] = ground arith
  find-erase k j ((i, v) ∷ m) = ground (arith, find-erase k j m)

  pub find_erased : (k : ℕ) (m : Table V) → find k (erase k m) ≡ none
  find_erased k m = ground (arith, find-erase k k m)

  -- No key stands twice.
  abbrev pub IsUnique : Table V → Type ℓ
  IsUnique [] = Unit
  IsUnique ((j, v) ∷ m) = (find j m ≡ none) × IsUnique m

  pub emplace-IsUnique : (k : ℕ) (v : V) (m : Table V) → IsUnique m → IsUnique (emplace k v m)
  unfolding emplace
  emplace-IsUnique k v m u = ground arith

  pub erase-IsUnique : (k : ℕ) (m : Table V) → IsUnique m → IsUnique (erase k m)
  unfolding erase
  erase-IsUnique k [] u = tt
  erase-IsUnique k ((j, v) ∷ m) u = ground (arith, erase-IsUnique k m u.1, find-erase k j m)

  -- The store of an object: the entry is replaced, or made.
  unfoldable pub put : ℕ → V → Table V → Table V
  put k v [] = (k, v) ∷ []
  put k v ((j, w) ∷ m) = let rest = put k v m in if j == k then (k, v) ∷ m else (j, w) ∷ rest

  pub find-put :
      (k j : ℕ) (v : V) (m : Table V) → find j (put k v m) ≡ (if k == j then some v else find j m)
  unfolding find put
  find-put k j v [] = refl
  find-put k j v ((i, w) ∷ m) = ground (arith, find-put k j v m)

  -- To store what is there changes nothing.
  pub put_same : (k : ℕ) (v : V) (m : Table V) → find k m ≡ some v → put k v m ≡ m
  unfolding find put
  put_same k v [] h = cc
  put_same k v ((j, w) ∷ m) h = ground (arith, put_same k v m)
