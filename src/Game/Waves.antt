-- ===== src/Game/Waves.antt =====
-- The waves of enemies: `waveSystem` and `startNextWave` of R-Type/src/Game.cpp.
pub mod Cycle
pub mod Total
use bee_r_type.Prelude.{
  ℕ, zero, suc, ◌+◌, ◌%◌, Bool, Option, some, leb, ◌==◌, if◌then◌else◌, Result, ok, ◌>>=◌,
}
use bee_r_type.Platform.{Platform}
use bee_r_type.Game.State.{Game, elapsed, started, second}
use bee_r_type.Game.Spawning.{spawn_enemy, spawn_boss}

module _ ⦃p : Platform⦄ where
  open p use {draw_y}

  -- `spawnEnemy(enemyId++, distX(rng), distY(rng));` makes two draws.
  unfoldable pub spawn_next_enemy : Game → Result Game
  unfolding spawn_enemy
  spawn_next_enemy g =
      spawn_enemy g.enemy_id (draw_y g.rng)
        (record g { enemy_id = g.enemy_id + 1; rng = g.rng + 2 })

  unfoldable pub spawn_next_boss : Game → Result Game
  unfolding spawn_boss
  spawn_next_boss g =
      spawn_boss g.boss_id (draw_y g.rng) (record g { boss_id = g.boss_id + 1; rng = g.rng + 2 })

  unfoldable pub spawn_enemies : ℕ → Game → Result Game
  unfolding spawn_next_enemy
  spawn_enemies zero g = ok g
  spawn_enemies (suc n) g = spawn_next_enemy g >>= spawn_enemies n

  unfoldable pub start_next_wave : Game → Result Game
  unfolding spawn_enemies
  start_next_wave g = do
    g' ← spawn_enemies g.enemies_per_wave (record g { current_wave = g.current_wave + 1 })
    ok (record g' { enemies_per_wave = g'.enemies_per_wave + 5 })

  -- The body of `if (elapsed >= 10)` without its last line.
  unfoldable pub next_wave : Game → Result Game
  unfolding start_next_wave spawn_next_boss spawn_enemies
  next_wave g =
      let g' = record g { current_wave = g.current_wave + 1 } in
      if g'.current_wave % 3 == 0
      then (spawn_next_boss g' >>= spawn_enemies 4)
      else start_next_wave g'

  unfoldable pub wave_system : ℕ → Game → Result Game
  unfolding next_wave
  wave_system now g =
      if leb 10 (elapsed second g.last_wave_time now)
      then (next_wave (record g { last_wave_time = started g.last_wave_time now }) >>= λ g'.
          ok (record g' { last_wave_time = some now }))
      else ok (record g { last_wave_time = started g.last_wave_time now })
