-- ===== src/Ecs/Registry/Killing.antt =====
-- What `kill_entity` does to all components, and which arrays it leaves.
use bee_r_type.Prelude.{
  ℕ, ◌≡◌, ◌∙◌, ◌≢◌, ◌↔◌, inl, inr, none, some, List, [], ◌∷◌, ◌==◌, if◌then◌else◌, ok, >>=-ok,
  ok-injective, Bool-cases, ==_iff, arith,
}
use bee_r_type.Platform.{Platform}
use bee_r_type.Ecs.SparseArray
use bee_r_type.Ecs.SparseArray.{SparseArray}
use bee_r_type.Ecs.Registry.{
  Kind, Component, Registry, find_array, put_array, remove_component, erase_all, kill_entity,
}
use bee_r_type.Ecs.Registry.Storage.{
  cell, Kind-discrete, find-put_ne, put_array-stored, some-ne-none, remove_component-ok,
  erase_all-Erased,
}
use bee_r_type.Ecs.Registry.Lifetime.{IsWired, kill_entity-ok, kill_entity-bare, kill_entity-total}

module _ ⦃p : Platform⦄ where
  -- Both registries have the same arrays.
  abbrev pub SameKinds : Registry → Registry → Type 0
  SameKinds r r' = (k : Kind) → (find_array k r.arrays ≢ none) ↔ (find_array k r'.arrays ≢ none)

  pub put_array-SameKinds :
      (k : Kind) (xs ys : SparseArray (Component k)) (r : Registry)
      → find_array k r.arrays ≡ some xs
      → SameKinds r (record r { arrays = put_array k ys r.arrays })
  put_array-SameKinds k xs ys r found j = (
    put_array-stored j k ys r.arrays,
    λ q. elim (Kind-discrete j k) [
      | yes here ↦ rw (here, found) some-ne-none
      | no ne ↦ λ z. q (find-put_ne j k ys r.arrays ne ∙ z)
    ],
  )

  remove_component-SameKinds :
      (k : Kind) (e : ℕ) (r : Registry) {r' : Registry}
      → remove_component k e r ≡ ok r'
      → SameKinds r r'
  remove_component-SameKinds k e r h =
      let (xs, found, left) = remove_component-ok k e r h in
      rw (← left) (put_array-SameKinds k xs (SparseArray.erase e xs) r found)

  erase_all-SameKinds :
      (ks : List Kind) (e : ℕ) (r : Registry) {r' : Registry}
      → erase_all ks e r ≡ ok r'
      → SameKinds r r'
  unfolding erase_all
  erase_all-SameKinds [] e r h = rw (← ok-injective h) (λ k. (λ q. q, λ q. q))
  erase_all-SameKinds (k ∷ ks) e r h =
      let (m, first, rest) = >>=-ok (remove_component k e r) _ h in
      let a = remove_component-SameKinds k e r first in
      let b = erase_all-SameKinds ks e m rest in
      λ j. (λ q. (b j).0 ((a j).0 q), λ q. (a j).1 ((b j).1 q))

  kill_entity-SameKinds :
      (e : ℕ) (r : Registry) {r' : Registry} → kill_entity e r ≡ ok r' → SameKinds r r'
  unfolding kill_entity
  kill_entity-SameKinds e r h =
      let (m, erased, left) = >>=-ok (erase_all r.erase_functions e r) _ h in
      rw (← ok-injective left) (erase_all-SameKinds r.erase_functions e r erased)

  kill_entity-others :
      (e : ℕ) (r : Registry) {r' : Registry} (k : Kind) (i : ℕ)
      → kill_entity e r ≡ ok r'
      → i ≢ e
      → cell k r'.arrays i ≡ cell k r.arrays i
  unfolding kill_entity
  kill_entity-others e r k i h ne =
      let (m, erased, left) = >>=-ok (erase_all r.erase_functions e r) _ h in
      rw (← ok-injective left) ((erase_all-Erased r.erase_functions e r k i erased).0 ne)

  pub IsWired-along :
      (r r' : Registry)
      → r'.erase_functions ≡ r.erase_functions
      → SameKinds r r'
      → IsWired r
      → IsWired r'
  IsWired-along r r' functions same w k =
      rw functions (λ h. (same k).0 ((w k).0 h), λ h. (w k).1 ((same k).1 h))

  -- A kill takes all components of its entity and nothing else, and the registry erases exactly the kinds
  -- that have an array afterwards, which are those that had one.
  pub kill_entity-cells :
      (e : ℕ) (r : Registry)
      → IsWired r
      → (r' : Registry) × (kill_entity e r ≡ ok r')
        × IsWired r'
        × SameKinds r r'
        × ((k : Kind) (i : ℕ) → cell k r'.arrays i ≡ (if i == e then none else cell k r.arrays i))
  kill_entity-cells e r w =
      let (r', done) = kill_entity-total e r w in
      let (_, _, functions) = kill_entity-ok e r done in
      let same = kill_entity-SameKinds e r done in
      (
        r',
        done,
        IsWired-along r r' functions same w,
        same,
        λ k i. elim (Bool-cases (i == e)) [
          | inl here ↦ rw here (rw ((==_iff i e).0 here) (kill_entity-bare e r k w done))
          | inr there ↦ rw there (kill_entity-others e r k i done (λ q. ground arith))
        ],
      )
