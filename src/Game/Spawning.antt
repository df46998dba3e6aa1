-- ===== src/Game/Spawning.antt =====
-- How the game makes and kills its entities: GameEngine/src/AGame.cpp, and the same for enemies and
-- bosses in R-Type/src/Game.cpp.
pub mod Spoiling
pub mod Total
use bee_r_type.Prelude.{
  ℕ, ◌+◌, Bool, true, false, Option, none, some, List, [], ◌∷◌, ◌++◌, ◌==◌, if◌then◌else◌, codes,
  Result, ok, thrown, out_of_range, ◌>>=◌,
}
use bee_r_type.Prelude.Map
use bee_r_type.Prelude.Map.{Map}
use bee_r_type.Prelude.Decimal.{Bytes, to_string}
use bee_r_type.Platform.{Platform}
use bee_r_type.Ecs.Registry
use bee_r_type.Ecs.Registry.{position, has_component}
use bee_r_type.Network.Packet.{
  PacketType, create_player, create_bullet, create_enemy, create_boss, ui_update, destroy_player,
  destroy_bullet, destroy_enemy, destroy_boss,
}
use bee_r_type.Server.{announce}
use bee_r_type.Entities.{
  Body, Player, new_player, new_bullet, new_enemy, new_boss, update_hp, update_score, position_of,
}
use bee_r_type.Game.State.{Game, entity_data, destroy_data}

-- The first entry, in the order of the identifiers, whose entity it is.
unfoldable pub find_entity {ℓ} : {V : Type ℓ} → (V → ℕ) → ℕ → Map V → Option (ℕ × V)
find_entity entity e [] = none
find_entity entity e ((id, v) ∷ m) = if entity v == e then some (id, v) else find_entity entity e m

module _ ⦃p : Platform⦄ where
  open p use {Real, lit, add, print_real}

  -- `m_server->Broadcast(m_server->createPacket(type, data));`
  unfoldable pub announce_in : PacketType → Bytes → Game → Game
  unfolding announce
  announce_in type data' g = record g { server = announce type data' g.server }

  -- The two broadcasts of `spawnPlayer`, with the player that the map holds.
  unfoldable pub announce_player : ℕ → Real → Real → Player → Game → Game
  unfolding announce_in
  announce_player id x y q g =
      announce_in ui_update (entity_data id (print_real q.hp) (print_real q.score) (codes ";0;0"))
        (announce_in create_player (entity_data id (print_real x) (print_real y) (codes ";0;0")) g)

  -- `emplace` keeps a player that has the identifier, and `updateHp` then adds to that one.
  unfoldable pub spawn_player : ℕ → Real → Real → Game → Result Game
  unfolding new_player announce_player update_hp update_score Map.emplace Map.find Map.place
      Map.adjust
  spawn_player id x y g = do
    fresh ← new_player g.registry x y
    let ready = λ (q : Player). update_score (lit 0) (update_hp (lit 100) q)
    let players = Map.adjust id ready (Map.emplace id fresh g.players)
    elim (Map.find id players) [
      | none ↦ thrown out_of_range
      | some q ↦ ok (announce_player id x y q (record g { players = players }))
    ]

  -- The part of `spawnBullet` behind the tests: the shooter stands at a position.
  unfoldable pub shoot_from : ℕ → Real → Real → Game → Result Game
  unfolding new_bullet announce_in Map.emplace Map.assign Map.find Map.place Map.adjust
  shoot_from shooter x y g = do
    let id = g.next_bullet_id
    b ← new_bullet g.registry id x y (lit 1)
    let g' =
        announce_in create_bullet (entity_data id (print_real x) (print_real y) (codes ";5;0"))
          (record g {
            bullets = Map.emplace id b g.bullets;
            bullet_shooters = Map.assign id shooter g.bullet_shooters;
          })
    ok (record g' { next_bullet_id = id + 1 })

  unfoldable pub spawn_bullet : ℕ → Game → Result Game
  unfolding shoot_from position_of Map.find
  spawn_bullet shooter g = elim (Map.find shooter g.players) [
    | none ↦ ok g
    | some q ↦
        if has_component position q.body.entity q.body.registry
        then (position_of q.body >>= λ at.
            shoot_from shooter (add at.x (lit 50)) (add at.y (lit 25)) g)
        else ok g
  ]

  unfoldable pub kill_players : ℕ → Game → Result Game
  unfolding find_entity announce_in Map.erase
  kill_players e g = elim (find_entity (λ (q : Player). q.body.entity) e g.players) [
    | none ↦ ok g
    | some (id, q) ↦
        (Registry.kill_entity q.body.entity g.registry >>= λ r. ok (
          announce_in destroy_player (destroy_data e)
            (record g { registry = r; players = Map.erase id g.players })))
  ]

  unfoldable pub kill_bullets : ℕ → Game → Result Game
  unfolding find_entity announce_in Map.erase
  kill_bullets e g = elim (find_entity (λ (b : Body). b.entity) e g.bullets) [
    | none ↦ ok g
    | some (id, b) ↦
        (Registry.kill_entity b.entity g.registry >>= λ r. ok (
          announce_in destroy_bullet (destroy_data e)
            (record g { registry = r; bullets = Map.erase id g.bullets })))
  ]

  -- `killEntity`.
  unfoldable pub kill_game_entity : ℕ → Game → Result Game
  unfolding kill_players kill_bullets
  kill_game_entity e g = kill_players e g >>= kill_bullets e

  -- An enemy appears at x = 1000, whatever `x` is.
  unfoldable pub spawn_enemy : ℕ → Real → Game → Result Game
  unfolding new_enemy announce_in Map.emplace Map.find Map.place
  spawn_enemy id y g = do
    e ← new_enemy g.registry (lit 1000) y
    ok (
        announce_in create_enemy
          (entity_data id (print_real (lit 1000)) (print_real y) (codes ";-1;0"))
          (record g { enemies = Map.emplace id e g.enemies }))

  unfoldable pub spawn_boss : ℕ → Real → Game → Result Game
  unfolding new_boss announce_in Map.emplace Map.find Map.place
  spawn_boss id y g = do
    b ← new_boss g.registry (lit 1000) y
    ok (
        announce_in create_boss
          (entity_data id (print_real (lit 1000)) (print_real y) (codes ";-0.1;0"))
          (record g { bosses = Map.emplace id b g.bosses }))

  -- `killEnemies` and `killBosses` leave the entry in the map.
  unfoldable pub kill_enemies : ℕ → Game → Result Game
  unfolding find_entity announce_in
  kill_enemies e g = elim (find_entity (λ (b : Body). b.entity) e g.enemies) [
    | none ↦ ok g
    | some (id, b) ↦
        (Registry.kill_entity b.entity g.registry >>= λ r.
        ok (announce_in destroy_enemy (destroy_data e) (record g { registry = r })))
  ]

  unfoldable pub kill_bosses : ℕ → Game → Result Game
  unfolding find_entity announce_in
  kill_bosses e g = elim (find_entity (λ (b : Body). b.entity) e g.bosses) [
    | none ↦ ok g
    | some (id, b) ↦
        (Registry.kill_entity b.entity g.registry >>= λ r.
        ok (announce_in destroy_boss (destroy_data e) (record g { registry = r })))
  ]
