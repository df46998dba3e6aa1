-- ===== src/Entities/Moving.antt =====
-- Where an object stands after it was made and after it moved.
use bee_r_type.Prelude.{
  ℕ, ◌≡◌, refl, subst, sym, ◌∙◌, ap, inl, inr, true, Option, none, some, [], ◌∷◌, zero, suc,
  get_elem?, set, Result, ok, thrown, undefined, ◌>>=◌, >>=-ok, ok-injective, arith, Bool-cases,
}
use bee_r_type.Platform.{Platform}
use bee_r_type.Ecs.SparseArray
use bee_r_type.Ecs.SparseArray.{SparseArray}
use bee_r_type.Ecs.SparseArray.View.{view, view-insert_at, view-at, contains-view}
use bee_r_type.Ecs.Components.{Position}
use bee_r_type.Ecs.Registry.{
  Registry, position, spawn_entity, add_component, has_component, get_components, put_array,
  entity_exists, find_array,
}
use bee_r_type.Entities.{Body, new_body, shift_component, move_body, position_of}

get_elem?-view {ℓ} :
    {A : Type ℓ} (i : ℕ) (xs : SparseArray A) {c : A}
    → view xs i ≡ some c
    → get_elem? xs i ≡ some (some c)
get_elem?-view i [] h = cc
get_elem?-view zero (o ∷ xs) h = ap some h
get_elem?-view (suc i) (o ∷ xs) h = get_elem?-view i xs h

at_const-view {ℓ} :
    {A : Type ℓ} (i : ℕ) (xs : SparseArray A) {c : A}
    → view xs i ≡ some c
    → SparseArray.at_const i xs ≡ ok (some c)
unfolding SparseArray.at_const
at_const-view i xs h = rw (get_elem?-view i xs h, SparseArray.at_const)

insert_at-at {ℓ} :
    {A : Type ℓ} (pos : ℕ) (c : A) (xs : SparseArray A)
    → set (SparseArray.at pos xs).0 pos (some c) ≡ SparseArray.insert_at pos c xs
unfolding SparseArray.at SparseArray.insert_at
insert_at-at pos c xs = refl

module _ ⦃p : Platform⦄ where
  open p use {Real, add}

  -- An object that exists with its position at a place.
  pub record StandsAt (at : Position) (b : Body) : Type 0 where
    pub lives : entity_exists b.entity b.registry ≡ true
    pub array :
        (xs : SparseArray Position) × (find_array position b.registry.arrays ≡ some xs)
        × (view xs b.entity ≡ some at)

  pub StandsAt-position_of : (at : Position) (b : Body) → StandsAt at b → position_of b ≡ ok at
  unfolding position_of get_components
  StandsAt-position_of at b s =
      let (xs, q, here) = s.array in rw (q, at_const-view b.entity xs here)

  inserted-StandsAt :
      (e : ℕ) (at : Position) (r : Registry) (xs : SparseArray Position)
      → entity_exists e r ≡ true
      → StandsAt at (record {
        registry = record r {
          arrays = put_array position (SparseArray.insert_at e at xs) r.arrays;
        };
        entity = e;
      })
  unfolding entity_exists
  inserted-StandsAt e at r xs lives = record {
    lives = lives;
    array = (SparseArray.insert_at e at xs, refl, ground (arith, view-insert_at e at xs e));
  }

  add_component-StandsAt :
      (e : ℕ) (at : Position) (r r' : Registry)
      → add_component position e at r ≡ ok r'
      → StandsAt at (record { registry = r'; entity = e })
  unfolding add_component
  add_component-StandsAt e at r r' h = elim (Bool-cases (entity_exists e r)) [
    | inr q ↦ ground arith
    | inl q ↦
        let store = λ (xs : SparseArray Position). record r {
          arrays = put_array position (SparseArray.insert_at e at xs) r.arrays;
        } in
        let added : add_component position e at r
            ≡ (get_components position r >>= λ xs. ok (store xs)) =
          rw (q, add_component) in
        let (xs, there, left) = >>=-ok (get_components position r) _ (sym added ∙ h) in
        subst (λ x. StandsAt at (record { registry = x; entity = e })) (ok-injective left)
          (inserted-StandsAt e at r xs q)
  ]

  pub new_body-StandsAt :
      (r : Registry) (at : Position) (b : Body) → new_body r at ≡ ok b → StandsAt at b
  unfolding new_body
  new_body-StandsAt r at b h =
      let (r', added, left) =
        >>=-ok (add_component position (spawn_entity r).1 at (spawn_entity r).0) _ h in
      subst (StandsAt at) (ok-injective left)
        (add_component-StandsAt (spawn_entity r).1 at (spawn_entity r).0 r' added)

  pub standing-has_component :
      (at : Position) (b : Body) → StandsAt at b → has_component position b.entity b.registry ≡ true
  unfolding has_component
  standing-has_component at b s =
      let (xs, there, here) = s.array in ground (arith, s.lives, contains-view b.entity xs)

  shift_component-view :
      (dx dy : Real) (at : Position) (xs : SparseArray Position) (b : Body)
      → get_components position b.registry ≡ ok xs
      → view xs b.entity ≡ some at
      → let to : Position = record { x = add at.x dx; y = add at.y dy } in
        let r = b.registry in
        shift_component dx dy b
        ≡ ok (record b {
          registry = record r {
            arrays = put_array position (SparseArray.insert_at b.entity to xs) r.arrays;
          };
        })
  unfolding shift_component
  shift_component-view dx dy at xs b there here =
      let old : (SparseArray.at b.entity xs).1 ≡ some at = (view-at b.entity xs).0 ∙ here in
      let put = λ (ys : SparseArray Position). record b {
        registry = record r { arrays = put_array position ys r.arrays };
      } in
      let ys = (SparseArray.at b.entity xs).0 in
      let after : Option Position → Result Body = λ o. elim o [
        | none ↦ thrown undefined
        | some q ↦ ok (put (set ys b.entity (some (record { x = add q.x dx; y = add q.y dy }))))
      ] in
      let reads : shift_component dx dy b ≡ after (SparseArray.at b.entity xs).1 =
        rw (there, shift_component) in
      reads ∙ (ap after old ∙ ap (λ zs. ok (put zs)) (insert_at-at b.entity _ xs))
    where
      open b use {registry as r}

  pub move_body-StandsAt :
      (dx dy : Real) (at : Position) (b : Body)
      → StandsAt at b
      → (b' : Body) × (move_body dx dy b ≡ ok b')
        × StandsAt (record { x = add at.x dx; y = add at.y dy }) b'
        × (b'.entity ≡ b.entity)
  unfolding move_body get_components
  move_body-StandsAt dx dy at b s =
      let (xs, there, here) = s.array in
      let to : Position = record { x = add at.x dx; y = add at.y dy } in
      let b' : Body = record b {
        registry = record r {
          arrays = put_array position (SparseArray.insert_at b.entity to xs) r.arrays;
        };
      } in
      (
        b',
        rw (standing-has_component at b s, move_body)
            (shift_component-view dx dy at xs b (rw (there, get_components)) here),
        inserted-StandsAt b.entity to r xs s.lives,
        refl,
      )
    where
      open b use {registry as r}

  -- An object that is made at a place stands there, and after a `move` it stands at the sums of the
  -- coordinates; a move never fails, and the object keeps its entity.
  pub move_body-new_body :
      (r : Registry) (at : Position) (dx dy : Real) (b : Body)
      → new_body r at ≡ ok b
      → (b' : Body) × (position_of b ≡ ok at)
        × (move_body dx dy b ≡ ok b')
        × (position_of b' ≡ ok (record { x = add at.x dx; y = add at.y dy }))
        × (b'.entity ≡ b.entity)
  move_body-new_body r at dx dy b h =
      let s = new_body-StandsAt r at b h in
      let (b', moves, s', same) = move_body-StandsAt dx dy at b s in
      (b', StandsAt-position_of at b s, moves, StandsAt-position_of _ b' s', same)
