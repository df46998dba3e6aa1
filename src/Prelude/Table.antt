-- ===== src/Prelude/Table.antt =====
-- `std::unordered_map<int, V>`: the entries in some order, which the C++ library does not specify.
pub mod Laws
use bee_r_type.Prelude.Tests.{◌==◌, if◌then◌else◌}
use bee_r_type.Prelude.Int.{ℤ, pos, negsuc}
use bee_r_type.Prelude.Lists.{is_empty}
use mathlib.Core.Bool.{Bool, true, false}
use mathlib.Core.Option.{Option, none, some}
use mathlib.Core.List.{List, [], ◌∷◌, map}

abbrev pub same_ℤ : ℤ → ℤ → Bool
same_ℤ (pos m) (pos n) = m == n
same_ℤ (negsuc m) (negsuc n) = m == n
same_ℤ _ _ = false

abbrev pub Table {ℓ} : Type ℓ → Type ℓ
Table V = List (ℤ × V)

module _ {ℓ} {V : Type ℓ} where
  abbrev pub is_some : Option V → Bool
  is_some none = false
  is_some (some v) = true

  unfoldable pub find : ℤ → Table V → Option V
  find k [] = none
  find k ((j, v) ∷ t) = if same_ℤ j k then some v else find k t

  unfoldable pub has : ℤ → Table V → Bool
  unfolding find
  has k t = is_some (find k t)

  -- `erase(key)`.
  unfoldable pub erase : ℤ → Table V → Table V
  erase k [] = []
  erase k ((j, v) ∷ t) = if same_ℤ j k then erase k t else (j, v) ∷ erase k t

  -- `t[key] = v`.
  unfoldable pub assign : ℤ → V → Table V → Table V
  unfolding erase
  assign k v t = (k, v) ∷ erase k t

  -- `t[key]` as a value of its own: a missing entry is put in first.
  unfoldable pub at : V → ℤ → Table V → Table V × V
  at missing k t = elim (find k t) [ none ↦ (assign k missing t, missing) | some v ↦ (t, v) ]

  -- A loop that changes every value.
  unfoldable pub change_all : (V → V) → Table V → Table V
  change_all f [] = []
  change_all f ((k, v) ∷ t) = (k, f v) ∷ change_all f t

  abbrev pub values : Table V → List V
  values = map (λ e. e.1)

  unfoldable pub empty : Table V → Bool
  empty t = is_empty t
