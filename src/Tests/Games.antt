-- ===== src/Tests/Games.antt =====
-- The game: its entities, waves, collisions, actions and loop.
use mathlib.Core.List.{Nodup, Nodup-nil}
use mathlib.Core.List.Perm
use bee_r_type.Prelude.{
  List, leb, if◌then◌else◌, ℕ, ◌+◌, ◌≡◌, refl, ◌≢◌, true, false, Option, none, some, [], ◌∷◌, arith,
  Result, ok, thrown,
}
use bee_r_type.Prelude.Map
use bee_r_type.Prelude.Map.{Map}
use bee_r_type.Prelude.Int.{pos, negsuc}
use bee_r_type.Sample.{fixed, fixed-IsIeee}
use bee_r_type.Ecs.SparseArray.{insert_at, contains, at}
use bee_r_type.Ecs.Components.{Position}
use bee_r_type.Ecs.Registry.{
  entity_exists, add_component, has_component, spawn_entity, kill_entity, register_component,
}
use bee_r_type.Server.{init}
use bee_r_type.Server.Search.{below-Nodup}
use bee_r_type.Entities.{Body, Player, new_body, default_player}
use bee_r_type.Game.State.{Game, new_game, new_action, elapsed, started, second}
use bee_r_type.Game.Spawning.{spawn_player, spawn_enemy, kill_players}
use bee_r_type.Game.Spawning.Spoiling.{NothingSpawns, kill_players_spoils, spawned_share_entity}
use bee_r_type.Game.Movement.{clamp_position_to_bounds, handle_player_move}
use bee_r_type.Game.Movement.Bounds.{IsWithin, clamp_position_bounds}
use bee_r_type.Game.Movement.Changes.{survivor_moves_untold}
use bee_r_type.Game.Collisions.{remove_enemies, remove_bosses, remove_players, remove_bullets}
use bee_r_type.Game.Keys.{HasFreshKeys}
use bee_r_type.Game.Loop.Keys.{Holds, run-HasFreshKeys}
use bee_r_type.Game.Collisions.Removal.{Removes, remove_entities_lem, remove_enemies_stale}
use bee_r_type.Game.Waves.{next_wave, wave_system}
use bee_r_type.Game.Waves.Total.{wave_system-total, ready_waves_cycle}
use bee_r_type.Game.Spawning.Total.{new_game-IsReady}
use bee_r_type.Game.Waves.Cycle.{Counts}
use bee_r_type.Game.Loop.{Times, returned, initialize_players, update, run}
use bee_r_type.Game.Loop.Endless.{run-update}

abbrev game : Game
game = new_game (init 0 0) (pos 0)

abbrev value : Result Game → Game
value (ok g) = g
value (thrown e) = game

abbrev body_at : ℕ → Result Body → Body
body_at e (ok b) = b
body_at e (thrown x) = record { registry = game.registry; entity = e }

abbrev place : Position
place = record { x = pos 300; y = pos 400 }

abbrev near : Position
near = record { x = pos 500; y = pos 400 }

abbrev first_body : Body
first_body = body_at 0 (new_body game.registry place)

abbrev second_body : Body
second_body = body_at 0 (new_body game.registry near)

-- Two enemies, and one of them is listed twice.
abbrev crowded : Game
crowded = record game {
  enemies = (0, first_body) ∷ (1, second_body) ∷ [];
  dead_enemies = 1 ∷ 1 ∷ [];
}

crowded-Nodup : Nodup (Map.keys crowded.enemies)
crowded-Nodup = Perm.nodup (Perm.swap 0 1 []) (below-Nodup 2)

remove_entities_lem_example :
    (let g' = remove_enemies crowded in
      Removes crowded.dead_enemies crowded.enemies crowded g'.dead_enemies g'.enemies g')
    × (let g' = remove_bosses crowded in
        Removes crowded.dead_bosses crowded.bosses crowded g'.dead_bosses g'.bosses g')
    × (let g' = remove_players crowded in
        Removes crowded.dead_players crowded.players crowded g'.dead_players g'.players g')
    × (let g' = remove_bullets crowded in
        Removes crowded.dead_bullets crowded.bullets crowded g'.dead_bullets g'.bullets g')
unfolding new_game
remove_entities_lem_example =
    remove_entities_lem crowded crowded-Nodup Nodup-nil Nodup-nil Nodup-nil

-- A wave begins in the second round.
abbrev two_rounds : List Times
two_rounds =
    record { bullets = 0; enemies = 0; wave = 0; ui = 0 }
    ∷ record { bullets = 0; enemies = 0; wave = 11_000_000_000; ui = 0 }
    ∷ []

run-HasFreshKeys_example : Holds HasFreshKeys (run 2 (two_rounds ∷ []) game)
unfolding new_game
run-HasFreshKeys_example = run-HasFreshKeys 2 (two_rounds ∷ []) game (record {
  players = Nodup-nil;
  bullets = (Nodup-nil, tt);
  enemies = (Nodup-nil, tt);
  bosses = (Nodup-nil, tt);
})

remove_enemies_stale_example :
    let g' = remove_enemies crowded in (g'.dead_enemies ≡ 1 ∷ []) × (remove_enemies g' ≡ g')
unfolding Map.find
remove_enemies_stale_example = remove_enemies_stale 1 crowded refl crowded-Nodup (λ h. cc)

clamp_position_bounds_example :
    let q = clamp_position_to_bounds (pos 13000) (negsuc 4) in
    IsWithin (pos 0) (pos 11950) q.x
    × IsWithin (pos 0) (pos 6300) q.y
    × (IsWithin (pos 0) (pos 11950) (pos 13000)
        → IsWithin (pos 0) (pos 6300) (negsuc 4)
        → q ≡ record { x = pos 13000; y = negsuc 4 })
    × (clamp_position_to_bounds q.x q.y ≡ q)
clamp_position_bounds_example = clamp_position_bounds fixed-IsIeee (pos 13000) (negsuc 4) refl refl

ready_waves_cycle_example :
    (g₁ g₂ : Game) × (next_wave game ≡ ok g₁)
    × (next_wave g₁ ≡ ok g₂)
    × Counts g₂
        (game.current_wave + 3)
        (game.enemies_per_wave + 5)
        (game.enemy_id + game.enemies_per_wave + 4)
        (game.boss_id + 1)
unfolding new_game
ready_waves_cycle_example = ready_waves_cycle game (new_game-IsReady (init 0 0) (pos 0)) refl

wave_system-total_example :
    (g' : Game) × (wave_system 12_000_000_000 game ≡ ok g')
    × (g'.registry ≡ game.registry)
    × (g'.last_wave_time ≡ (
        if leb 10 (elapsed second game.last_wave_time 12_000_000_000)
        then some 12_000_000_000
        else started game.last_wave_time 12_000_000_000))
wave_system-total_example =
    wave_system-total 12_000_000_000 game (new_game-IsReady (init 0 0) (pos 0))

abbrev times : Times
times = record { bullets = 0; enemies = 0; wave = 0; ui = 0 }

run-update_example :
    (run 2 ((times ∷ []) ∷ []) game ≡ update (times ∷ []) (value (initialize_players 2 game)))
    × ((g' : Game) → run 2 ((times ∷ []) ∷ []) game ≢ returned g')
unfolding new_game initialize_players add_component spawn_entity register_component
run-update_example = run-update 2 (times ∷ []) [] game (value (initialize_players 2 game)) refl

-- One player, and three actions: up, one that nothing knows, and one that was processed.
abbrev one_player : Game
one_player = record (value (spawn_player 0 (pos 1000) (pos 1000) game)) {
  player_actions =
      new_action 0 3 ∷ new_action 0 9 ∷ record (new_action 0 9) { processed = true } ∷ [];
}

spawned_share_entity_example :
    let g₁ = value (spawn_enemy 4 (pos 10) game) in
    let g₂ = value (spawn_enemy 5 (pos 20) g₁) in
    (a b : Body) × (Map.find 4 g₂.enemies ≡ some a)
    × (Map.find 5 g₂.enemies ≡ some b)
    × (a.entity ≡ b.entity)
unfolding new_game spawn_enemy add_component spawn_entity register_component
spawned_share_entity_example =
    spawned_share_entity 4 5 (pos 10) (pos 20) game (value (spawn_enemy 4 (pos 10) game))
      (value (spawn_enemy 5 (pos 20) (value (spawn_enemy 4 (pos 10) game)))) refl refl refl refl

abbrev player_of : Option Player → Player
player_of none = default_player
player_of (some q) = q

kill_players_spoils_example :
    (entity_exists 0 one_player.registry ≡ false)
    × NothingSpawns (value (kill_players 0 one_player))
unfolding new_game spawn_player kill_players kill_entity add_component spawn_entity
    register_component
kill_players_spoils_example =
    kill_players_spoils 0 0 (player_of (Map.find 0 one_player.players)) one_player
      (value (kill_players 0 one_player)) refl refl refl

-- One player, whose identifier is 1.
abbrev survivor : Game
survivor = value (spawn_player 1 (pos 1000) (pos 1000) game)

survivor_moves_untold_example : (value (handle_player_move 1 2 survivor)).server ≡ survivor.server
unfolding new_game spawn_player handle_player_move add_component spawn_entity register_component
    insert_at has_component contains at
survivor_moves_untold_example =
    survivor_moves_untold 1 2 (player_of (Map.find 1 survivor.players)) survivor
      (value (handle_player_move 1 2 survivor)) refl (omega arith) refl
