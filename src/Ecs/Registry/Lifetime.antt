-- ===== src/Ecs/Registry/Lifetime.antt =====
-- The lifetime of entities in `Registry`: which identifiers `spawn_entity` gives out, and what
-- `kill_entity` leaves of an entity.
use bee_r_type.Prelude.{
  subst, ℕ, ◌+◌, ◌^◌, ◌<◌, ◌≤◌, ◌≡◌, refl, sym, ap, ◌∙◌, ◌≢◌, ◌↔◌, inl, inr, true, false, none,
  List, [], ◌∷◌, ok, thrown, >>=-ok, ok-injective, arith, Option-cases, out_of_range,
}
use bee_r_type.Platform.{Platform}
use bee_r_type.Ecs.SparseArray.View.{contains-view}
use bee_r_type.Ecs.Registry.{
  Kind, Component, Registry, find_array, is_among, spawn_from, spawn_entity, erase_all, kill_entity,
  entity_exists, has_component, add_component,
}
use bee_r_type.Ecs.Registry.Storage.{
  cell, HasKind, erase_all-Keeps, erase_all-Erased, erase_all-total,
}

-- No entity is listed twice.
abbrev pub Distinct : List ℕ → Type 0
Distinct [] = Unit
Distinct (e ∷ es) = (is_among e es ≡ false) × Distinct es

module _ ⦃p : Platform⦄ where
  -- Dead entities were spawned once, and stand once in the list.
  pub record IsValid (r : Registry) : Type 0 where
    pub spawned : (e : ℕ) → is_among e r.dead_entities ≡ true → e < r.next_entity
    pub once : Distinct r.dead_entities

  -- A kind is registered exactly if `kill_entity` erases it.
  abbrev pub IsWired : Registry → Type 0
  IsWired r = (k : Kind) → HasKind k r.erase_functions ↔ (find_array k r.arrays ≢ none)

  spawn_from_lem :
      (es : List ℕ) (r : Registry)
      → r.dead_entities ≡ es
      → r.next_entity + 1 < 2 ^ 64
      → IsValid r
      → let (r', e) = spawn_from es r in
        (entity_exists e r ≡ false)
        × (entity_exists e r' ≡ true)
        × IsValid r'
        × ((i : ℕ) → i ≢ e → entity_exists i r' ≡ entity_exists i r)
  unfolding spawn_from entity_exists
  spawn_from_lem [] r q room v = (
    ground arith,
    ground arith,
    record { spawned = λ e h. ground (arith, v.spawned e h); once = v.once },
    λ i ne. ground arith,
  )
  spawn_from_lem (e ∷ es) r q room v =
      let once : Distinct (e ∷ es) = subst Distinct q v.once in
      let old = v.spawned e in
      (
        ground arith,
        ground arith,
        record { spawned = λ i h. ground (arith, v.spawned i); once = once.1 },
        λ i ne. ground arith,
      )

  spawn_from-arrays : (es : List ℕ) (r : Registry) → (spawn_from es r).0.arrays ≡ r.arrays
  unfolding spawn_from
  spawn_from-arrays [] r = refl
  spawn_from-arrays (e ∷ es) r = refl

  pub spawn_entity-arrays : (r : Registry) → (spawn_entity r).0.arrays ≡ r.arrays
  unfolding spawn_entity
  spawn_entity-arrays r = spawn_from-arrays r.dead_entities r

  spawn_from-erase_functions :
      (es : List ℕ) (r : Registry) → (spawn_from es r).0.erase_functions ≡ r.erase_functions
  unfolding spawn_from
  spawn_from-erase_functions [] r = refl
  spawn_from-erase_functions (e ∷ es) r = refl

  spawn_entity-erase_functions :
      (r : Registry) → (spawn_entity r).0.erase_functions ≡ r.erase_functions
  unfolding spawn_entity
  spawn_entity-erase_functions r = spawn_from-erase_functions r.dead_entities r

  -- In a valid registry whose counter has not reached the end of `std::size_t`, `spawn_entity` gives
  -- an entity that did not exist and now does, and keeps the registry valid. Every other entity exists
  -- or not as before, and all components and erase functions are those of before.
  pub spawn_entity_fresh :
      (r : Registry)
      → IsValid r
      → r.next_entity + 1 < 2 ^ 64
      → let (r', e) = spawn_entity r in
        (entity_exists e r ≡ false)
        × (entity_exists e r' ≡ true)
        × IsValid r'
        × ((i : ℕ) → i ≢ e → entity_exists i r' ≡ entity_exists i r)
        × (r'.arrays ≡ r.arrays)
        × (r'.erase_functions ≡ r.erase_functions)
  unfolding spawn_entity
  spawn_entity_fresh r v room =
      let (missing, lives, valid, others) = spawn_from_lem r.dead_entities r refl room v in
      (missing, lives, valid, others, spawn_entity-arrays r, spawn_entity-erase_functions r)

  pub kill_entity-ok :
      (e : ℕ) (r : Registry) {r' : Registry}
      → kill_entity e r ≡ ok r'
      → (r'.next_entity ≡ r.next_entity)
        × (r'.dead_entities ≡ e ∷ r.dead_entities)
        × (r'.erase_functions ≡ r.erase_functions)
  unfolding kill_entity
  kill_entity-ok e r h =
      let (m, erased, left) = >>=-ok (erase_all r.erase_functions e r) _ h in
      let keeps = erase_all-Keeps r.erase_functions e r erased in
      rw (← ok-injective left) (keeps.next, ap (◌∷◌ e) keeps.dead, keeps.functions)

  pub kill_entity-total :
      (e : ℕ) (r : Registry) → IsWired r → (r' : Registry) × (kill_entity e r ≡ ok r')
  unfolding kill_entity
  kill_entity-total e r w =
      let (m, done, _) = erase_all-total r.erase_functions e r (λ k. (w k).0) in
      (record m { dead_entities = e ∷ m.dead_entities }, rw done)

  killed-IsValid :
      (e : ℕ) (r r' : Registry)
      → IsValid r
      → entity_exists e r ≡ true
      → r'.next_entity ≡ r.next_entity
      → r'.dead_entities ≡ e ∷ r.dead_entities
      → IsValid r'
  unfolding entity_exists
  killed-IsValid e r r' v lives next dead = record {
    spawned = λ i h. ground (arith, v.spawned i);
    once = subst Distinct (sym dead) (ground arith, v.once);
  }

  pub kill_entity-bare :
      (e : ℕ) (r : Registry) {r' : Registry} (k : Kind)
      → IsWired r
      → kill_entity e r ≡ ok r'
      → cell k r'.arrays e ≡ none
  unfolding kill_entity
  kill_entity-bare e r k w h =
      let (m, erased, left) = >>=-ok (erase_all r.erase_functions e r) _ h in
      let (_, stays, goes) = erase_all-Erased r.erase_functions e r k e erased in
      rw (← ok-injective left) (elim (Option-cases (find_array k r.arrays)) [
        | inl q ↦ stays (rw q)
        | inr (xs, q) ↦ goes ((w k).1 (rw q (λ z. cc)))
      ])

  kill_entity-keeps :
      (e : ℕ) (r : Registry) {r' : Registry} (k : Kind) (i : ℕ)
      → kill_entity e r ≡ ok r'
      → i ≢ e
      → cell k r'.arrays i ≡ cell k r.arrays i
  unfolding kill_entity
  kill_entity-keeps e r k i h ne =
      let (m, erased, left) = >>=-ok (erase_all r.erase_functions e r) _ h in
      let (same, _, _) = erase_all-Erased r.erase_functions e r k i erased in
      rw (← ok-injective left) (same ne)

  -- Killing an entity that exists, in a registry that is valid and whose kinds all have their array,
  -- succeeds, and the registry stays valid. The entity exists no more and has no component of any kind
  -- left; every other entity exists or not as before, and has the components that it had.
  pub kill_entity_once :
      (e : ℕ) (r : Registry)
      → IsValid r
      → IsWired r
      → entity_exists e r ≡ true
      → (r' : Registry) × (kill_entity e r ≡ ok r')
        × IsValid r'
        × (entity_exists e r' ≡ false)
        × ((k : Kind) → cell k r'.arrays e ≡ none)
        × ((i : ℕ) → i ≢ e → entity_exists i r' ≡ entity_exists i r)
        × ((i : ℕ) (k : Kind) → i ≢ e → cell k r'.arrays i ≡ cell k r.arrays i)
  kill_entity_once e r v w lives =
      let (r', done) = kill_entity-total e r w in
      let (next, dead, _) = kill_entity-ok e r done in
      (
        r',
        done,
        killed-IsValid e r r' v lives next dead,
        unfold entity_exists in ground arith,
        λ k. kill_entity-bare e r k w done,
        λ i ne. unfold entity_exists in ground arith,
        λ i k ne. kill_entity-keeps e r k i done ne,
      )

  has_component-bare :
      (k : Kind) (e : ℕ) (r : Registry) → cell k r.arrays e ≡ none → has_component k e r ≡ false
  unfolding has_component
  has_component-bare k e r h = elim (Option-cases (find_array k r.arrays)) [
    | inl q ↦ ground arith
    | inr (xs, q) ↦ ground (arith, contains-view e xs)
  ]

  -- If an entity was killed in a registry that erases exactly the kinds that have an array, the
  -- next spawn gives its identifier, and it has no component of any kind.
  pub spawn-kill_is_bare :
      (e : ℕ) (r : Registry) {r' : Registry} (k : Kind)
      → IsWired r
      → kill_entity e r ≡ ok r'
      → ((spawn_entity r').1 ≡ e) × (has_component k e (spawn_entity r').0 ≡ false)
  unfolding spawn_entity
  spawn-kill_is_bare e r {r'} k w h =
      let (_, dead, _) = kill_entity-ok e r h in
      rw (dead, spawn_from)
        (
          refl,
          has_component-bare k e (record r' { dead_entities = r.dead_entities })
              (kill_entity-bare e r k w h),
        )

  -- If an entity is killed twice, and neither kill throws, the next two spawns both give its
  -- identifier, to two owners.
  pub kill_twice_shares :
      (e : ℕ) (r : Registry) {r₁ r₂ : Registry}
      → kill_entity e r ≡ ok r₁
      → kill_entity e r₁ ≡ ok r₂
      → let (r₃, a) = spawn_entity r₂ in (a ≡ e) × ((spawn_entity r₃).1 ≡ e)
  unfolding spawn_entity spawn_from
  kill_twice_shares e r {r₁} {r₂} h h' =
      let dead : r₂.dead_entities ≡ e ∷ e ∷ r.dead_entities =
        (kill_entity-ok e r₁ h').1 ∙ ap (◌∷◌ e) (kill_entity-ok e r h).1 in
      ground arith

  -- Killing an identifier that was never spawned, if that does not throw, spoils the next spawn: it
  -- gives that identifier, which still does not exist, and adding any component to it throws.
  pub kill_unspawned_spoils :
      (e : ℕ) (r : Registry) {r' : Registry} (k : Kind) (c : Component k)
      → r.next_entity ≤ e
      → kill_entity e r ≡ ok r'
      → let (r'', a) = spawn_entity r' in
        (a ≡ e) × (entity_exists a r'' ≡ false) × (add_component k a c r'' ≡ thrown out_of_range)
  unfolding spawn_entity spawn_from entity_exists add_component
  kill_unspawned_spoils e r k c far h = ground (arith, kill_entity-ok e r h)
