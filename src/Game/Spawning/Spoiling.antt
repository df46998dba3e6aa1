-- ===== src/Game/Spawning/Spoiling.antt =====
-- The entities of the game and its own registry. Objects spawn their entity in a copy of the registry,
-- and `killPlayers`, `killBullets`, `killEnemies` and `killBosses` kill it in the registry itself.
use bee_r_type.Prelude.{
  ℕ, ◌≤◌, ◌≡◌, sym, ◌∙◌, ap, inl, inr, false, none, some, [], ◌∷◌, ◌==◌, if◌then◌else◌, ok, thrown,
  out_of_range, >>=-ok, ok-injective, arith, Bool-cases, Result-cases,
}
use bee_r_type.Prelude.Map
use bee_r_type.Prelude.Map.{Map}
use bee_r_type.Prelude.Map.Laws.{find-place}
use bee_r_type.Platform.{Platform}
use bee_r_type.Ecs.Registry
use bee_r_type.Ecs.Registry.{
  position, Registry, empty_registry, register_component, spawn_entity, add_component,
  entity_exists,
}
use bee_r_type.Ecs.Registry.Lifetime.{kill_unspawned_spoils}
use bee_r_type.Ecs.Components.{Position}
use bee_r_type.Entities.{Body, Player, new_body, new_enemy, new_boss, new_bullet, new_player}
use bee_r_type.Game.State.{Game, register_components}
use bee_r_type.Game.Spawning.{
  find_entity, kill_players, spawn_enemy, spawn_boss, spawn_player, shoot_from,
}

module _ ⦃p : Platform⦄ where
  open p use {Real, lit}

  -- No object can be made from the registry.
  abbrev pub IsSpoiled : Registry → Type 0
  IsSpoiled r = (at : Position) → new_body r at ≡ thrown out_of_range

  kill_entity-IsSpoiled :
      (e : ℕ) (r r' : Registry)
      → r.next_entity ≤ e
      → Registry.kill_entity e r ≡ ok r'
      → IsSpoiled r'
  unfolding new_body
  kill_entity-IsSpoiled e r r' far h at =
      let (_, _, throws) = kill_unspawned_spoils e r position at far h in rw throws

  -- Every call that makes an object from the registry throws.
  abbrev pub NothingSpawns : Game → Type 0
  NothingSpawns g =
      ((id : ℕ) (y : Real) → spawn_enemy id y g ≡ thrown out_of_range)
      × ((id : ℕ) (y : Real) → spawn_boss id y g ≡ thrown out_of_range)
      × ((id : ℕ) (x y : Real) → spawn_player id x y g ≡ thrown out_of_range)
      × ((id : ℕ) (x y : Real) → shoot_from id x y g ≡ thrown out_of_range)

  spoiled_spawns : (g : Game) → IsSpoiled g.registry → NothingSpawns g
  unfolding spawn_enemy new_enemy spawn_boss new_boss spawn_player new_player shoot_from new_bullet
  spoiled_spawns g spoiled = (
    λ id y. rw (spoiled (record { x = lit 1000; y = y })),
    λ id y. rw (spoiled (record { x = lit 1000; y = y })),
    λ id x y. rw (spoiled (record { x = x; y = y })),
    λ id x y. rw (spoiled (record { x = x; y = y })),
  )

  find_entity-at {ℓ} :
      {V : Type ℓ} (entity : V → ℕ) (e : ℕ) (m : Map V) {id : ℕ} {v : V}
      → find_entity entity e m ≡ some (id, v)
      → entity v ≡ e
  unfolding find_entity
  find_entity-at entity e [] h = cc
  find_entity-at entity e ((j, w) ∷ m) h = elim (Bool-cases (entity w == e)) [
    | inl here ↦ ground arith
    | inr there ↦ find_entity-at entity e m (sym (rw (there, find_entity)) ∙ h)
  ]

  kill_players-registry :
      (e id : ℕ) (q : Player) (g g' : Game)
      → find_entity (λ (v : Player). v.body.entity) e g.players ≡ some (id, q)
      → kill_players e g ≡ ok g'
      → Registry.kill_entity e g.registry ≡ ok g'.registry
  unfolding kill_players
  kill_players-registry e id q g g' found h =
      let own : q.body.entity ≡ e = find_entity-at _ e g.players found in
      elim (Result-cases (Registry.kill_entity q.body.entity g.registry)) [
        | inl (x, d) ↦ ground arith
        | inr (r, d) ↦ ground arith
      ]

  new_body-entity :
      (r : Registry) (at : Position) (b : Body)
      → new_body r at ≡ ok b
      → b.entity ≡ (spawn_entity r).1
  unfolding new_body
  new_body-entity r at b h =
      let (r', _, left) =
        >>=-ok (add_component position (spawn_entity r).1 at (spawn_entity r).0) _ h in
      rw (← ok-injective left)

  spawn_enemy-ok :
      (i : ℕ) (y : Real) (g g' : Game)
      → spawn_enemy i y g ≡ ok g'
      → (b : Body) × (b.entity ≡ (spawn_entity g.registry).1)
        × (g'.registry ≡ g.registry)
        × (g'.enemies ≡ Map.emplace i b g.enemies)
  unfolding spawn_enemy new_enemy
  spawn_enemy-ok i y g g' h =
      let at : Position = record { x = lit 1000; y = y } in
      let (b, made, left) = >>=-ok (new_body g.registry at) _ h in
      (b, new_body-entity g.registry at b made, rw (← ok-injective left), rw (← ok-injective left))

  find-emplace :
      (j k : ℕ) (v : Body) (m : Map Body)
      → Map.find k m ≡ none
      → Map.find j (Map.emplace k v m) ≡ (if k == j then some v else Map.find j m)
  unfolding Map.emplace
  find-emplace j k v m h = rw (h, Map.emplace) (find-place j k v m h)

  -- In a game whose registry is the one that it was made with, the entity that `killPlayers` is called
  -- with, whichever it is, does not exist in this registry. If it finds a player with the entity and does not throw, then
  -- every `spawnEnemy`, `spawnBoss`, `spawnPlayer` and every bullet that is made next throws.
  pub kill_players_spoils :
      (e id : ℕ) (q : Player) (g g' : Game)
      → find_entity (λ (v : Player). v.body.entity) e g.players ≡ some (id, q)
      → g.registry ≡ register_components empty_registry
      → kill_players e g ≡ ok g'
      → (entity_exists e g.registry ≡ false) × NothingSpawns g'
  unfolding kill_players register_components register_component entity_exists
  kill_players_spoils e id q g g' found own h =
      let none_given : g.registry.next_entity ≡ 0 = ap (λ r. r.next_entity) own in
      (
        ground arith,
        spoiled_spawns g' (
            kill_entity-IsSpoiled e g.registry g'.registry (omega (arith, none_given))
              (kill_players-registry e id q g g' found h)),
      )

  -- Two enemies with new identifiers that are spawned one after the other get the same entity,
  -- since each spawns it in its own copy of the same registry.
  pub spawned_share_entity :
      (i j : ℕ) (y z : Real) (g g₁ g₂ : Game)
      → Map.find i g.enemies ≡ none
      → Map.find j g₁.enemies ≡ none
      → spawn_enemy i y g ≡ ok g₁
      → spawn_enemy j z g₁ ≡ ok g₂
      → (a b : Body) × (Map.find i g₂.enemies ≡ some a)
        × (Map.find j g₂.enemies ≡ some b)
        × (a.entity ≡ b.entity)
  spawned_share_entity i j y z g g₁ g₂ new_i new_j h h' =
      let (a, ea, ra, ma) = spawn_enemy-ok i y g g₁ h in
      let (b, eb, rb, mb) = spawn_enemy-ok j z g₁ g₂ h' in
      let at_i : Map.find i g₁.enemies ≡ some a =
        ground (arith, ap (Map.find i) ma, find-emplace i i a g.enemies new_i) in
      let at_i' = ap (Map.find i) mb ∙ find-emplace i j b g₁.enemies new_j in
      let at_j' = ap (Map.find j) mb ∙ find-emplace j j b g₁.enemies new_j in
      (
        a,
        b,
        ground (arith, at_i', at_i, new_j),
        ground (arith, at_j'),
        ea ∙ (ap (λ r. (spawn_entity r).1) (sym ra) ∙ sym eb),
      )
