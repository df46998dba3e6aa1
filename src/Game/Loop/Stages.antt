-- ===== src/Game/Loop/Stages.antt =====
-- A round of `update` in its six calls, between which the other threads run.
use bee_r_type.Prelude.{◌≡◌, refl, Result, ok, ◌>>=◌, subst, ok-injective}
use bee_r_type.Platform.{Platform}
use bee_r_type.Game.State.{Game}
use bee_r_type.Game.Drift.{update_bullets, update_enemies}
use bee_r_type.Game.Collisions.{check_collisions}
use bee_r_type.Game.Waves.{wave_system}
use bee_r_type.Game.Actions.{process_player_actions}
use bee_r_type.Game.Loop.{Times, update_round, update_ui}
use bee_r_type.Game.Keys.{Advances, SameKeys-Advances, KeepsKeys-Advances}
use bee_r_type.Game.Actions.Keys.{process_player_actions-Advances}
use bee_r_type.Game.Collisions.Keys.{check_collisions-KeepsKeys}
use bee_r_type.Game.Loop.Steps.{
  update_bullets-SameKeys, update_enemies-SameKeys, wave_system-Advances,
}
use bee_r_type.Game.Loop.Keys.{update_ui-SameKeys}

-- Which of the calls comes next.
pub data Stage : Type 0 where
  acting moving_bullets moving_enemies colliding spawning showing : Stage

abbrev pub following : Stage → Stage
following acting = moving_bullets
following moving_bullets = moving_enemies
following moving_enemies = colliding
following colliding = spawning
following spawning = showing
following showing = acting

module _ ⦃p : Platform⦄ where
  unfoldable pub call_stage : Stage → Times → Game → Result Game
  call_stage acting t g = process_player_actions g
  call_stage moving_bullets t g = update_bullets t.bullets g
  call_stage moving_enemies t g = update_enemies t.enemies g
  call_stage colliding t g = check_collisions g
  call_stage spawning t g = wave_system t.wave g
  call_stage showing t g = ok (update_ui t.ui g)

  -- A round is its six calls, with nothing in between.
  update_round-call_stage :
      (t : Times) (g : Game)
      → update_round t g ≡ (
          call_stage acting t g >>= λ g₁. call_stage moving_bullets t g₁ >>= λ g₂.
          call_stage moving_enemies t g₂ >>= λ g₃. call_stage colliding t g₃ >>= λ g₄.
          call_stage spawning t g₄ >>= λ g₅. call_stage showing t g₅)
  unfolding update_round call_stage
  update_round-call_stage t g = refl

  pub call_stage-Advances :
      (k : Stage) (t : Times) (g g' : Game) → call_stage k t g ≡ ok g' → Advances g g'
  unfolding call_stage
  call_stage-Advances acting t g g' h = process_player_actions-Advances g g' h
  call_stage-Advances moving_bullets t g g' h =
      SameKeys-Advances (update_bullets-SameKeys t.bullets g g' h)
  call_stage-Advances moving_enemies t g g' h =
      SameKeys-Advances (update_enemies-SameKeys t.enemies g g' h)
  call_stage-Advances colliding t g g' h = KeepsKeys-Advances (check_collisions-KeepsKeys g g' h)
  call_stage-Advances spawning t g g' h = wave_system-Advances t.wave g g' h
  call_stage-Advances showing t g g' h =
      subst (Advances g) (ok-injective h) (SameKeys-Advances (update_ui-SameKeys t.ui g))
