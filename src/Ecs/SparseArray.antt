-- ===== src/Ecs/SparseArray.antt =====
-- `sparse_array` of ECS/components/SparseArray.hpp: a vector of optional components. References to an
-- element are its value here; the callers' writes through them are written out where they happen.
pub mod View
use bee_r_type.Prelude.{
  ℕ, zero, suc, ◌+◌, ◌-◌, ◌^◌, Bool, true, false, Option, none, some, List, [], ◌∷◌, ◌++◌, ltb, leb,
  ◌&&◌, if◌then◌else◌, length, get_elem?, set, replicate, Result, ok, thrown, undefined, Exception,
}

abbrev pub SparseArray {ℓ} : Type ℓ → Type ℓ
SparseArray A = List (Option A)

module _ {ℓ} {A : Type ℓ} where
  -- `std::vector::resize` to a size that is not smaller: empty optionals are appended.
  unfoldable pub resize : ℕ → SparseArray A → SparseArray A
  resize n xs = xs ++ replicate (n - length xs) none

  -- `if (pos >= _data.size()) _data.resize(pos + 1);`
  unfoldable pub grow : ℕ → SparseArray A → SparseArray A
  unfolding resize
  grow pos xs = if leb (length xs) pos then resize (pos + 1) xs else xs

  -- `operator[]`, not const: the array that it leaves, and the element.
  unfoldable pub at : ℕ → SparseArray A → SparseArray A × Option A
  unfolding grow
  at idx xs = let ys = grow idx xs in (ys, elim (get_elem? ys idx) [ none ↦ none | some o ↦ o ])

  -- `operator[] const`: no check of the index.
  unfoldable pub at_const : ℕ → SparseArray A → Result (Option A)
  at_const idx xs = elim (get_elem? xs idx) [ none ↦ thrown undefined | some o ↦ ok o ]

  unfoldable pub size : SparseArray A → ℕ
  size xs = length xs

  unfoldable pub insert_at : ℕ → A → SparseArray A → SparseArray A
  unfolding grow
  insert_at pos c xs = set (grow pos xs) pos (some c)

  -- The component is built in place from its parameters.
  unfoldable pub emplace_at {κ} :
      {Params : Type κ} → (Params → A) → ℕ → Params → SparseArray A → SparseArray A
  unfolding grow
  emplace_at build pos params xs = set (grow pos xs) pos (some (build params))

  unfoldable pub erase : ℕ → SparseArray A → SparseArray A
  erase pos xs = if ltb pos (length xs) then set xs pos none else xs

  unfoldable pub contains : ℕ → SparseArray A → Bool
  contains index xs = elim (get_elem? xs index) [
    | none ↦ false
    | some none ↦ false
    | some (some c) ↦ true
  ]

  -- The search of `get_index`, from an index on; `same` is the component's `==`.
  unfoldable pub index_from : (A → A → Bool) → A → ℕ → SparseArray A → Option ℕ
  index_from same value i [] = none
  index_from same value i (none ∷ xs) = index_from same value (i + 1) xs
  index_from same value i (some c ∷ xs) =
      if same c value then some i else index_from same value (i + 1) xs

  -- `static_cast<size_type>(-1)` where the value is not found.
  unfoldable pub get_index : (A → A → Bool) → A → SparseArray A → ℕ
  unfolding index_from
  get_index same value xs = elim (index_from same value 0 xs) [ none ↦ 2 ^ 64 - 1 | some i ↦ i ]
