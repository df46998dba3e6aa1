-- ===== src/Game/Lookup.antt =====
-- The readers of `Game` that nothing else of the program needs: `getEntityRegistry` and the counts.
use bee_r_type.Prelude.{ℕ, Option, none, some, Result, ok, thrown, runtime_error, length}
use bee_r_type.Platform.{Platform}
use bee_r_type.Ecs.Registry.{Registry}
use bee_r_type.Entities.{Player, Body}
use bee_r_type.Game.State.{Game}
use bee_r_type.Game.Spawning.{find_entity}

module _ ⦃p : Platform⦄ where
  abbrev pub player_entity : Player → ℕ
  player_entity q = q.body.entity

  abbrev pub body_entity : Body → ℕ
  body_entity b = b.entity

  -- The registry of the object that a search found, or what the next search gives.
  abbrev pub registry_or {ℓ} :
      {V : Type ℓ} → (V → Registry) → Option (ℕ × V) → Result Registry → Result Registry
  registry_or registry none next = next
  registry_or registry (some (id, v)) next = ok (registry v)

  unfoldable pub get_entity_registry : ℕ → Game → Result Registry
  unfolding find_entity
  get_entity_registry e g =
      registry_or (λ (q : Player). q.body.registry) (find_entity player_entity e g.players)
        (registry_or (λ (b : Body). b.registry) (find_entity body_entity e g.enemies)
          (registry_or (λ (b : Body). b.registry) (find_entity body_entity e g.bullets)
            (registry_or (λ (b : Body). b.registry) (find_entity body_entity e g.bosses)
              (thrown runtime_error))))

  unfoldable pub get_player_count : Game → ℕ
  get_player_count g = length g.players

  unfoldable pub get_enemies_count : Game → ℕ
  get_enemies_count g = length g.enemies

  unfoldable pub get_bullets_count : Game → ℕ
  get_bullets_count g = length g.bullets

  unfoldable pub get_boss_count : Game → ℕ
  get_boss_count g = length g.bosses
