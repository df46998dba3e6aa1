-- ===== src/Ecs/SparseArray/View.antt =====
-- The abstract view of a sparse array: a partial map from indices to components.
use bee_r_type.Prelude.{
  Bool-cases, inl, inr, ltb→lt, ==_iff, ℕ, zero, suc, ◌+◌, ◌-◌, ◌<◌, ◌≤◌, ◌≡◌, refl, ◌∙◌, true,
  false, Option, none, some, [], ◌∷◌, ◌++◌, ltb, ◌==◌, if◌then◌else◌, length, get_elem?, set,
  replicate, arith, length-append, length-replicate,
}
use bee_r_type.Ecs.SparseArray.{SparseArray, grow, at, insert_at, emplace_at, erase, contains}

module _ {ℓ} {A : Type ℓ} where
  -- The component at an index, if there is one; the size of the vector is forgotten.
  abbrev pub view : SparseArray A → ℕ → Option A
  view [] i = none
  view (o ∷ xs) zero = o
  view (o ∷ xs) (suc i) = view xs i

  view-append_none : (xs : SparseArray A) (n i : ℕ) → view (xs ++ replicate n none) i ≡ view xs i
  view-append_none [] zero i = refl
  view-append_none [] (suc n) zero = refl
  view-append_none [] (suc n) (suc i) = view-append_none [] n i
  view-append_none (o ∷ xs) n zero = refl
  view-append_none (o ∷ xs) n (suc i) = view-append_none xs n i

  pub view-grow : (pos : ℕ) (xs : SparseArray A) (i : ℕ) → view (grow pos xs) i ≡ view xs i
  unfolding grow
  view-grow pos xs i = ground (arith, view-append_none xs (pos + 1 - length xs) i)

  pub lt-length-grow : (pos : ℕ) (xs : SparseArray A) → pos < length (grow pos xs)
  unfolding grow
  lt-length-grow pos xs = ground (
    arith,
    length-append xs (replicate (pos + 1 - length xs) none),
    length-replicate {A = Option A} (pos + 1 - length xs) none,
  )

  view-set :
      (xs : SparseArray A) (pos : ℕ) (o : Option A) (i : ℕ)
      → pos < length xs
      → view (set xs pos o) i ≡ (if i == pos then o else view xs i)
  view-set [] pos o i h = absurd (omega arith)
  view-set (x ∷ xs) zero o zero h = refl
  view-set (x ∷ xs) zero o (suc i) h = ground arith
  view-set (x ∷ xs) (suc pos) o zero h = ground arith
  view-set (x ∷ xs) (suc pos) o (suc i) h = ground (arith, view-set xs pos o i (omega arith))

  pub view_outside : (xs : SparseArray A) (i : ℕ) → length xs ≤ i → view xs i ≡ none
  view_outside [] i h = refl
  view_outside (o ∷ xs) zero h = absurd (omega arith)
  view_outside (o ∷ xs) (suc i) h = view_outside xs i (omega arith)

  -- An element read from the vector is the view's.
  read :
      (xs : SparseArray A) (i : ℕ) → elim (get_elem? xs i) [ none ↦ none | some o ↦ o ] ≡ view xs i
  read [] i = refl
  read (o ∷ xs) zero = refl
  read (o ∷ xs) (suc i) = read xs i

  -- After `insert_at` the component is at its index, whatever the size was, and all else is as before.
  pub view-insert_at :
      (pos : ℕ) (c : A) (xs : SparseArray A) (i : ℕ)
      → view (insert_at pos c xs) i ≡ (if i == pos then some c else view xs i)
  unfolding insert_at
  view-insert_at pos c xs i =
      ground
        (arith, view-set (grow pos xs) pos (some c) i (lt-length-grow pos xs), view-grow pos xs i)

  pub view-emplace_at {κ} :
      {Params : Type κ} (build : Params → A) (pos : ℕ) (params : Params) (xs : SparseArray A)
      (i : ℕ)
      → view (emplace_at build pos params xs) i
        ≡ (if i == pos then some (build params) else view xs i)
  unfolding emplace_at
  view-emplace_at build pos params xs i = ground (
    arith,
    view-set (grow pos xs) pos (some (build params)) i (lt-length-grow pos xs),
    view-grow pos xs i,
  )

  -- `erase` empties its index and nothing else, also where the index lies outside the vector.
  pub view-erase :
      (pos : ℕ) (xs : SparseArray A) (i : ℕ)
      → view (erase pos xs) i ≡ (if i == pos then none else view xs i)
  unfolding erase
  view-erase pos xs i = elim (Bool-cases (ltb pos (length xs))) [
    | inl inside ↦ rw inside (view-set xs pos none i (ltb→lt _ _ inside))
    | inr outside ↦ rw outside (elim (Bool-cases (i == pos)) [
      | inl here ↦ rw here (rw ((==_iff i pos).0 here) (view_outside xs pos (ground arith)))
      | inr there ↦ rw there
    ])
  ]

  -- `operator[]` may grow the vector, and never changes a component; it reads the one at its index.
  pub view-at :
      (idx : ℕ) (xs : SparseArray A)
      → ((at idx xs).1 ≡ view xs idx) × ((i : ℕ) → view (at idx xs).0 i ≡ view xs i)
  unfolding at
  view-at idx xs = (read (grow idx xs) idx ∙ view-grow idx xs idx, view-grow idx xs)

  pub contains-view :
      (i : ℕ) (xs : SparseArray A)
      → contains i xs ≡ elim (view xs i) [ none ↦ false | some c ↦ true ]
  unfolding contains
  contains-view i [] = refl
  contains-view zero (none ∷ xs) = refl
  contains-view zero (some c ∷ xs) = refl
  contains-view (suc i) (o ∷ xs) = contains-view i xs
