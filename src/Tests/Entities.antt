-- ===== src/Tests/Entities.antt =====
-- The entity component system and the objects.
use bee_r_type.Prelude.{
  ℕ, ◌≡◌, refl, ◌≢◌, true, false, none, some, [], ◌∷◌, arith, Result, ok, thrown,
}
use bee_r_type.Prelude.Int.{pos}
use bee_r_type.Sample.{fixed}
use bee_r_type.Ecs.SparseArray.{SparseArray}
use bee_r_type.Ecs.Components.{Position}
use bee_r_type.Ecs.Registry.Storage.{cell}
use bee_r_type.Ecs.Registry.{
  Kind, position, velocity, Registry, empty_registry, register_component, spawn_entity, kill_entity,
  entity_exists, has_component, add_component,
}
use bee_r_type.Ecs.Registry.Lifetime.{
  IsValid, IsWired, spawn_entity_fresh, kill_entity_once, spawn-kill_is_bare, kill_twice_shares,
}
use bee_r_type.Ecs.Registry.Registration.{register_component-IsWired}
use bee_r_type.Entities.{Body, new_body, move_body, position_of}
use bee_r_type.Entities.Moving.{move_body-new_body}

abbrev here : Position
here = record { x = pos 30; y = pos 40 }

abbrev array : SparseArray ℕ
array = none ∷ some 7 ∷ []

empty-IsValid : IsValid empty_registry
empty-IsValid = record { spawned = λ e h. cc; once = tt }

empty-IsWired : IsWired empty_registry
empty-IsWired position = (λ h. absurd h, λ h. absurd (h refl))
empty-IsWired velocity = (λ h. absurd h, λ h. absurd (h refl))
empty-IsWired _ = (λ h. absurd h, λ h. absurd (h refl))

-- Entities 0 and 2 live, and 1 is dead.
abbrev two_live : Registry
two_live = record (register_component position empty_registry) {
  next_entity = 3;
  dead_entities = 1 ∷ [];
}

two_live-IsValid : IsValid two_live
two_live-IsValid = record { spawned = λ e h. ground arith; once = (refl, tt) }

two_live-IsWired : IsWired two_live
two_live-IsWired =
    (register_component-IsWired position empty_registry empty-IsValid empty-IsWired).1

spawn_entity_fresh_example :
    let (r', e) = spawn_entity two_live in
    (entity_exists e two_live ≡ false)
    × (entity_exists e r' ≡ true)
    × IsValid r'
    × ((i : ℕ) → i ≢ e → entity_exists i r' ≡ entity_exists i two_live)
    × (r'.arrays ≡ two_live.arrays)
    × (r'.erase_functions ≡ two_live.erase_functions)
spawn_entity_fresh_example = spawn_entity_fresh two_live two_live-IsValid (omega arith)

kill_entity_once_example :
    (r' : Registry) × (kill_entity 2 two_live ≡ ok r')
    × IsValid r'
    × (entity_exists 2 r' ≡ false)
    × ((k : Kind) → cell k r'.arrays 2 ≡ none)
    × ((i : ℕ) → i ≢ 2 → entity_exists i r' ≡ entity_exists i two_live)
    × ((i : ℕ) (k : Kind) → i ≢ 2 → cell k r'.arrays i ≡ cell k two_live.arrays i)
unfolding entity_exists
kill_entity_once_example = kill_entity_once 2 two_live two_live-IsValid two_live-IsWired refl

abbrev result : Result Registry → Registry
result (ok r) = r
result (thrown e) = empty_registry

spawn-kill_is_bare_example :
    let r' = result (kill_entity 2 two_live) in
    ((spawn_entity r').1 ≡ 2) × (has_component position 2 (spawn_entity r').0 ≡ false)
unfolding kill_entity register_component
spawn-kill_is_bare_example =
    spawn-kill_is_bare 2 two_live {r' = result (kill_entity 2 two_live)} position two_live-IsWired
      refl

kill_twice_shares_example :
    let r₂ = result (kill_entity 2 (result (kill_entity 2 two_live))) in
    let (r₃, a) = spawn_entity r₂ in (a ≡ 2) × ((spawn_entity r₃).1 ≡ 2)
unfolding kill_entity register_component
kill_twice_shares_example =
    kill_twice_shares 2 two_live {r₁ = result (kill_entity 2 two_live)}
      {r₂ = result (kill_entity 2 (result (kill_entity 2 two_live)))} refl refl

abbrev body : Result Body → Body
body (ok b) = b
body (thrown e) = record { registry = empty_registry; entity = 0 }

move_body-new_body_example :
    let b = body (new_body two_live here) in
    (b' : Body) × (position_of b ≡ ok here)
    × (move_body (pos 5) (pos 1) b ≡ ok b')
    × (position_of b' ≡ ok (record { x = pos 35; y = pos 41 }))
    × (b'.entity ≡ b.entity)
unfolding new_body register_component spawn_entity add_component
move_body-new_body_example =
    move_body-new_body two_live here (pos 5) (pos 1) (body (new_body two_live here)) refl
