-- ===== src/Ecs/Registry/Storage.antt =====
-- The component storage of `Registry`: what each operation does to the component of an entity.
use bee_r_type.Prelude.{
  ℕ, ◌≡◌, refl, sym, ap, ◌∙◌, ◌≢◌, ◌⊎◌, inl, inr, Option, none, some, List, [], ◌∷◌, ◌==◌,
  if◌then◌else◌, ok, >>=-ok, ok-injective, subst, Bool-cases, Option-cases, arith, ==_iff,
}
use bee_r_type.Platform.{Platform}
use bee_r_type.Ecs.SparseArray
use bee_r_type.Ecs.SparseArray.View.{view, view-erase}
use bee_r_type.Ecs.Registry.{
  Kind, position, velocity, drawable, controllable, collidable, projectile, Component, Arrays,
  Registry, find_array, put_array, get_components, remove_component, erase_all,
}

pub Kind-discrete : Discrete Kind
Kind-discrete = hlevel

pub some-ne-none {ℓ} : {A : Type ℓ} {a : A} → some a ≢ none
some-ne-none h = cc

pub if_ne {ℓ} : {A : Type ℓ} (x : A) {y : A} (i e : ℕ) → i ≢ e → (if i == e then x else y) ≡ y
if_ne x i e ne = elim (Bool-cases (i == e)) [
  | inl q ↦ absurd (ne ((==_iff i e).0 q))
  | inr q ↦ rw q
]

module _ ⦃p : Platform⦄ where
  pub find-put_self :
      (k : Kind) (xs : SparseArray.SparseArray (Component k)) (a : Arrays)
      → find_array k (put_array k xs a) ≡ some xs
  find-put_self position xs a = refl
  find-put_self velocity xs a = refl
  find-put_self drawable xs a = refl
  find-put_self controllable xs a = refl
  find-put_self collidable xs a = refl
  find-put_self projectile xs a = refl

  pub find-put_ne :
      (j k : Kind) (xs : SparseArray.SparseArray (Component k)) (a : Arrays)
      → j ≢ k
      → find_array j (put_array k xs a) ≡ find_array j a
  find-put_ne position position xs a h = absurd (h refl)
  find-put_ne velocity velocity xs a h = absurd (h refl)
  find-put_ne drawable drawable xs a h = absurd (h refl)
  find-put_ne controllable controllable xs a h = absurd (h refl)
  find-put_ne collidable collidable xs a h = absurd (h refl)
  find-put_ne projectile projectile xs a h = absurd (h refl)
  find-put_ne _ _ xs a h = refl

  abbrev pub cell_in {ℓ} : {A : Type ℓ} → Option (SparseArray.SparseArray A) → ℕ → Option A
  cell_in none i = none
  cell_in (some xs) i = view xs i

  -- The component of an entity, whether or not the entity lives.
  abbrev pub cell : (k : Kind) → Arrays → ℕ → Option (Component k)
  cell k a i = cell_in (find_array k a) i

  pub get_components-ok :
      (k : Kind) (r : Registry) {xs : SparseArray.SparseArray (Component k)}
      → get_components k r ≡ ok xs
      → find_array k r.arrays ≡ some xs
  unfolding get_components
  get_components-ok k r h = ground arith

  -- What a successful `remove_component` leaves.
  pub remove_component-ok :
      (k : Kind) (e : ℕ) (r : Registry) {r' : Registry}
      → remove_component k e r ≡ ok r'
      → (xs : SparseArray.SparseArray (Component k)) × (find_array k r.arrays ≡ some xs)
        × (record r { arrays = put_array k (SparseArray.erase e xs) r.arrays } ≡ r')
  unfolding remove_component
  remove_component-ok k e r h =
      let (xs, got, rest) = >>=-ok (get_components k r) _ h in
      (xs, get_components-ok k r got, ok-injective rest)

  remove_component-cell :
      (k : Kind) (e : ℕ) (r : Registry) {r' : Registry} (j : Kind) (i : ℕ)
      → remove_component k e r ≡ ok r'
      → (j ≢ k → cell j r'.arrays i ≡ cell j r.arrays i)
        × (cell k r'.arrays i ≡ (if i == e then none else cell k r.arrays i))
  remove_component-cell k e r j i h =
      let (xs, found, left) = remove_component-ok k e r h in
      rw (← left) (
        λ ne. ap (λ o. cell_in o i) (find-put_ne j k (SparseArray.erase e xs) r.arrays ne),
        rw (find-put_self k (SparseArray.erase e xs) r.arrays, found) (view-erase e xs i),
      )

  -- The fields that erasing leaves alone.
  pub record Keeps (r r' : Registry) : Type 0 where
    pub next : r'.next_entity ≡ r.next_entity
    pub dead : r'.dead_entities ≡ r.dead_entities
    pub functions : r'.erase_functions ≡ r.erase_functions

  remove_component-Keeps :
      (k : Kind) (e : ℕ) (r : Registry) {r' : Registry}
      → remove_component k e r ≡ ok r'
      → Keeps r r'
  remove_component-Keeps k e r h =
      let (xs, found, left) = remove_component-ok k e r h in
      rw (← left) (record { next = refl; dead = refl; functions = refl })

  pub erase_all-Keeps :
      (ks : List Kind) (e : ℕ) (r : Registry) {r' : Registry}
      → erase_all ks e r ≡ ok r'
      → Keeps r r'
  unfolding erase_all
  erase_all-Keeps [] e r h =
      rw (← ok-injective h) (record { next = refl; dead = refl; functions = refl })
  erase_all-Keeps (k ∷ ks) e r h =
      let (m, first, rest) = >>=-ok (remove_component k e r) _ h in
      let a = remove_component-Keeps k e r first in
      let b = erase_all-Keeps ks e m rest in
      record {
        next = b.next ∙ a.next;
        dead = b.dead ∙ a.dead;
        functions = b.functions ∙ a.functions;
      }

  abbrev pub HasKind : Kind → List Kind → Type 0
  HasKind j [] = ⊥
  HasKind j (k ∷ ks) = (j ≡ k) ⊎ HasKind j ks

  pub put_array-stored :
      (j k : Kind) (xs : SparseArray.SparseArray (Component k)) (a : Arrays)
      → find_array j a ≢ none
      → find_array j (put_array k xs a) ≢ none
  put_array-stored j k xs a h = elim (Kind-discrete j k) [
    | yes q ↦
        subst (λ j. find_array j (put_array k xs a) ≢ none) (sym q)
          (λ z. some-ne-none (sym (find-put_self k xs a) ∙ z))
    | no ne ↦ λ z. h (sym (find-put_ne j k xs a ne) ∙ z)
  ]

  -- What erasing does to one kind: other entities keep their component, and the entity has none of
  -- it if it had none, or if the kind is one of those erased.
  abbrev Erased : (Kind → Type 0) → ℕ → Registry → Registry → Kind → ℕ → Type 0
  Erased Hit e r r' j i =
      (i ≢ e → cell j r'.arrays i ≡ cell j r.arrays i)
      × (cell j r.arrays e ≡ none → cell j r'.arrays e ≡ none)
      × (Hit j → cell j r'.arrays e ≡ none)

  remove_component-Erased_self :
      (k : Kind) (e : ℕ) (r : Registry) {r' : Registry} (i : ℕ)
      → remove_component k e r ≡ ok r'
      → Erased (λ j. j ≡ k) e r r' k i
  remove_component-Erased_self k e r i h =
      let at_e = (remove_component-cell k e r k e h).1 ∙ rw ((==_iff e e).1 refl) in
      (λ ne. (remove_component-cell k e r k i h).1 ∙ if_ne _ i e ne, λ _. at_e, λ _. at_e)

  remove_component-Erased :
      (k : Kind) (e : ℕ) (r : Registry) {r' : Registry} (j : Kind) (i : ℕ)
      → remove_component k e r ≡ ok r'
      → Erased (λ j. j ≡ k) e r r' j i
  remove_component-Erased k e r {r'} j i h = elim (Kind-discrete j k) [
    | yes q ↦
        subst (λ j. Erased (λ j. j ≡ k) e r r' j i) (sym q) (remove_component-Erased_self k e r i h)
    | no ne ↦ (
      λ _. (remove_component-cell k e r j i h).0 ne,
      λ empty. (remove_component-cell k e r j e h).0 ne ∙ empty,
      λ q. absurd (ne q),
    )
  ]

  pub erase_all-Erased :
      (ks : List Kind) (e : ℕ) (r : Registry) {r' : Registry} (j : Kind) (i : ℕ)
      → erase_all ks e r ≡ ok r'
      → Erased (λ j. HasKind j ks) e r r' j i
  unfolding erase_all
  erase_all-Erased [] e r j i h = rw (← ok-injective h) (λ _. refl, λ q. q, λ q. absurd q)
  erase_all-Erased (k ∷ ks) e r j i h =
      let (m, first, rest) = >>=-ok (remove_component k e r) _ h in
      let (a, b, c) = remove_component-Erased k e r j i first in
      let (a', b', c') = erase_all-Erased ks e m j i rest in
      (
        λ ne. a' ne ∙ a ne,
        λ empty. b' (b empty),
        λ hit. elim hit [ inl q ↦ b' (c q) | inr q ↦ c' q ],
      )

  -- Erasing succeeds where every kind has its array.
  remove_component-total :
      (k : Kind) (e : ℕ) (r : Registry)
      → find_array k r.arrays ≢ none
      → (r' : Registry) × (remove_component k e r ≡ ok r')
        × ((j : Kind) → find_array j r.arrays ≢ none → find_array j r'.arrays ≢ none)
  unfolding remove_component get_components
  remove_component-total k e r h = elim (Option-cases (find_array k r.arrays)) [
    | inl q ↦ absurd (h q)
    | inr (xs, q) ↦ (
      record r { arrays = put_array k (SparseArray.erase e xs) r.arrays },
      rw (q, remove_component, get_components),
      λ j. put_array-stored j k (SparseArray.erase e xs) r.arrays,
    )
  ]

  pub erase_all-total :
      (ks : List Kind) (e : ℕ) (r : Registry)
      → ((k : Kind) → HasKind k ks → find_array k r.arrays ≢ none)
      → (r' : Registry) × (erase_all ks e r ≡ ok r')
        × ((j : Kind) → find_array j r.arrays ≢ none → find_array j r'.arrays ≢ none)
  unfolding erase_all
  erase_all-total [] e r h = (r, refl, λ j q. q)
  erase_all-total (k ∷ ks) e r h =
      let (m, first, kept) = remove_component-total k e r (h k (inl refl)) in
      let (r', rest, kept') = erase_all-total ks e m (λ j q. kept j (h j (inr q))) in
      (r', rw first rest, λ j q. kept' j (kept j q))
