-- ===== src/Game/Drift.antt =====
-- How bullets, enemies and bosses drift: `updateBullets` and `updateEnemies` of R-Type/src/Game.cpp.
use bee_r_type.Prelude.{ℕ, some, [], ◌∷◌, leb, if◌then◌else◌, Result, ok, ◌>>=◌}
use bee_r_type.Prelude.Map.{Map}
use bee_r_type.Platform.{Platform}
use bee_r_type.Entities.{Body, move_bullet, move_enemy, move_boss}
use bee_r_type.Game.State.{Game, elapsed, started, millisecond}

module _ ⦃p : Platform⦄ where
  open p use {Real, lit, tenth, neg}

  -- `for (auto& [id, b] : m) b.move(…);`
  unfoldable pub move_each : (Body → Result Body) → Map Body → Result (Map Body)
  move_each step [] = ok []
  move_each step ((id, b) ∷ m) = do b' ← step b; m' ← move_each step m; ok ((id, b') ∷ m')

  unfoldable pub update_bullets : ℕ → Game → Result Game
  unfolding move_each move_bullet
  update_bullets now g =
      if leb 16 (elapsed millisecond g.last_bullets_time now)
      then (move_each (move_bullet (lit 5) (lit 0)) g.bullets >>= λ m.
          ok (record g { bullets = m; last_bullets_time = some now }))
      else ok (record g { last_bullets_time = started g.last_bullets_time now })

  unfoldable pub update_enemies : ℕ → Game → Result Game
  unfolding move_each move_enemy move_boss
  update_enemies now g =
      if leb 16 (elapsed millisecond g.last_enemies_time now)
      then (do
        enemies ← move_each (move_enemy (neg (lit 1)) (lit 0)) g.enemies
        bosses ← move_each (move_boss (neg tenth) (lit 0)) g.bosses
        ok (record g { enemies = enemies; bosses = bosses; last_enemies_time = some now }))
      else ok (record g { last_enemies_time = started g.last_enemies_time now })
