-- ===== src/Entities.antt =====
-- The classes of R-Type/src/{Players,Enemy,Boss,Bullet}.cpp. Each takes its registry by value, so an
-- object owns a copy of the registry in which it spawns its entity. An enemy, a boss and a bullet have
-- the same fields; a player has two more.
pub mod Moving
use bee_r_type.Prelude.{
  ℕ, Bool, true, false, Option, none, some, if◌then◌else◌, Result, ok, thrown, undefined, ◌>>=◌,
  set,
}
use bee_r_type.Platform.{Platform}
use bee_r_type.Ecs.SparseArray
use bee_r_type.Ecs.Components.{Position}
use bee_r_type.Ecs.Registry.{
  Registry, position, empty_registry, spawn_entity, add_component, has_component, get_components,
  put_array, entity_exists, kill_entity,
}

module _ ⦃p : Platform⦄ where
  open p use {Real, lit, add}

  pub record Body : Type 0 where
    pub registry : Registry
    pub entity : ℕ

  abbrev pub Enemy : Type 0
  Enemy = Body

  abbrev pub Boss : Type 0
  Boss = Body

  abbrev pub Bullet : Type 0
  Bullet = Body

  pub record Player : Type 0 where
    pub body : Body
    pub hp : Real
    pub score : Real

  -- What the four constructors do with their copy of the registry.
  unfoldable pub new_body : Registry → Position → Result Body
  new_body registry at = do
    let spawned = spawn_entity registry
    r ← add_component position spawned.1 at spawned.0
    ok (record { registry = r; entity = spawned.1 })

  unfoldable pub new_enemy : Registry → Real → Real → Result Enemy
  unfolding new_body
  new_enemy registry x y = new_body registry (record { x = x; y = y })

  unfoldable pub new_boss : Registry → Real → Real → Result Boss
  unfolding new_body
  new_boss registry x y = new_body registry (record { x = x; y = y })

  -- The identifier and the speed are not used.
  unfoldable pub new_bullet : Registry → ℕ → Real → Real → Real → Result Bullet
  unfolding new_body
  new_bullet registry id x y speed = new_body registry (record { x = x; y = y })

  unfoldable pub new_player : Registry → Real → Real → Result Player
  unfolding new_body
  new_player registry x y = do
    b ← new_body registry (record { x = x; y = y })
    ok (record { body = b; hp = lit 0; score = lit 0 })

  -- `Player()`.
  abbrev pub default_player : Player
  default_player = record {
    body = record { registry = empty_registry; entity = 0 };
    hp = lit 0;
    score = lit 0;
  }

  abbrev moved : Real → Real → Position → Position
  moved dx dy q = record { x = add q.x dx; y = add q.y dy }

  -- `get_components<Position>()[entity]` through `operator[]`, and the two additions behind it.
  unfoldable pub shift_component : Real → Real → Body → Result Body
  shift_component dx dy b = do
    xs ← get_components position b.registry
    let (ys, here) = SparseArray.at b.entity xs
    elim here [
      | none ↦ thrown undefined
      | some q ↦ ok (record b {
        registry = record registry {
          arrays = put_array position (set ys b.entity (some (moved dx dy q))) registry.arrays;
        };
      })
    ]
    where
      open b use {registry}

  -- `move`; without a position it only prints an error.
  unfoldable pub move_body : Real → Real → Body → Result Body
  unfolding shift_component
  move_body dx dy b =
      if has_component position b.entity b.registry then shift_component dx dy b else ok b

  unfoldable pub move_enemy : Real → Real → Enemy → Result Enemy
  unfolding move_body
  move_enemy = move_body

  unfoldable pub move_boss : Real → Real → Boss → Result Boss
  unfolding move_body
  move_boss = move_body

  unfoldable pub move_bullet : Real → Real → Bullet → Result Bullet
  unfolding move_body
  move_bullet = move_body

  unfoldable pub move_player : Real → Real → Player → Result Player
  unfolding move_body
  move_player dx dy q = do b ← move_body dx dy q.body; ok (record q { body = b })

  unfoldable pub update_hp : Real → Player → Player
  update_hp amount q = record q { hp = add q.hp amount }

  unfoldable pub update_score : Real → Player → Player
  update_score amount q = record q { score = add q.score amount }

  -- The destructors: the registry that is thrown away with the object.
  unfoldable pub destroy_body : Body → Result Registry
  destroy_body b =
      if entity_exists b.entity b.registry then kill_entity b.entity b.registry else ok b.registry

  unfoldable pub destroy_enemy_object : Enemy → Result Registry
  unfolding destroy_body
  destroy_enemy_object = destroy_body

  unfoldable pub destroy_boss_object : Boss → Result Registry
  unfolding destroy_body
  destroy_boss_object = destroy_body

  unfoldable pub destroy_bullet_object : Bullet → Result Registry
  unfolding destroy_body
  destroy_bullet_object = destroy_body

  unfoldable pub destroy_player_object : Player → Result Registry
  unfolding destroy_body
  destroy_player_object q = destroy_body q.body

  -- `getRegistry().get_components<Position>()[getEntity()]` on the const registry, and a read through
  -- `->` behind it.
  unfoldable pub position_of : Body → Result Position
  unfolding get_components SparseArray.at_const
  position_of b = do
    xs ← get_components position b.registry
    here ← SparseArray.at_const b.entity xs
    elim here [ none ↦ thrown undefined | some q ↦ ok q ]
