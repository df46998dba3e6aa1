-- ===== src/Prelude/Map.antt =====
-- `std::map` with keys that are not negative: an association list in the order of its keys.
pub mod Laws
pub mod Entries
use bee_r_type.Prelude.Tests.{ltb, ◌==◌, if◌then◌else◌}
use bee_r_type.Prelude.Lists.{length}
use Prim.Native.Nat.{ℕ, zero, suc, ◌+◌, ◌≤◌, ◌<◌}
use mathlib.Core.Path.{◌≡◌, refl}
use mathlib.Core.Bool.{Bool, true, false}
use mathlib.Core.Option.{Option, none, some}
use mathlib.Core.List.{List, [], ◌∷◌, map}
use native.Mathlib.Omega.{arith}

abbrev pub Map {ℓ} : Type ℓ → Type ℓ
Map V = List (ℕ × V)

module _ {ℓ} {V : Type ℓ} where
  unfoldable pub find : ℕ → Map V → Option V
  find k [] = none
  find k ((j, v) ∷ m) = if j == k then some v else find k m

  -- Puts an entry at its place; one that has the key stands before it.
  unfoldable pub place : ℕ → V → Map V → Map V
  place k v [] = (k, v) ∷ []
  place k v ((j, w) ∷ m) = if ltb k j then (k, v) ∷ (j, w) ∷ m else (j, w) ∷ place k v m

  -- `emplace` and `insert`: an entry that is there stays.
  unfoldable pub emplace : ℕ → V → Map V → Map V
  emplace k v m = elim (find k m) [ none ↦ place k v m | some w ↦ m ]

  -- A change of the entry through a reference or an iterator.
  unfoldable pub adjust : ℕ → (V → V) → Map V → Map V
  adjust k f [] = []
  adjust k f ((j, v) ∷ m) = if j == k then (j, f v) ∷ m else (j, v) ∷ adjust k f m

  -- `m[k] = v`.
  unfoldable pub assign : ℕ → V → Map V → Map V
  assign k v m = elim (find k m) [ none ↦ place k v m | some w ↦ adjust k (λ _. v) m ]

  -- `erase(iterator)`: the one entry with the key.
  unfoldable pub erase : ℕ → Map V → Map V
  erase k [] = []
  erase k ((j, v) ∷ m) = if j == k then m else (j, v) ∷ erase k m

  abbrev pub keys : Map V → List ℕ
  keys = map (λ e. e.0)

  abbrev pub values : Map V → List V
  values = map (λ e. e.1)

  -- Strictly ascending keys, all at least the bound.
  abbrev pub Ascending : ℕ → Map V → Type 0
  Ascending n [] = Unit
  Ascending n ((j, v) ∷ m) = (n ≤ j) × Ascending (suc j) m
