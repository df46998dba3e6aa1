-- ===== src/Game/Loop.antt =====
-- The game's main loop and its end: `run`, `update`, `updateUI`, `checkPlayersAlive` and `stop` of
-- R-Type/src/Game.cpp.
pub mod Endless
pub mod Steps
pub mod Keys
pub mod Stages
use bee_r_type.Prelude.{
  ℕ, zero, suc, ◌+◌, Bool, true, false, ◌||◌, Option, some, List, [], ◌∷◌, leb, ◌==◌, if◌then◌else◌,
  is_empty, length, codes, Result, ok, thrown, ◌>>=◌, Exception,
}
use bee_r_type.Prelude.Map.{Map}
use bee_r_type.Prelude.Int.{pos}
use bee_r_type.Platform.{Platform}
use bee_r_type.Ecs.Registry.{run_systems}
use bee_r_type.Network.Packet.{ui_update, game_end}
use bee_r_type.Entities.{Player}
use bee_r_type.Game.State.{Game, elapsed, started, second, entity_data}
use bee_r_type.Game.Spawning.{announce_in, spawn_player}
use bee_r_type.Game.Collisions.{check_collisions}
use bee_r_type.Game.Drift.{update_bullets, update_enemies}
use bee_r_type.Game.Waves.{wave_system}
use bee_r_type.Game.Actions.{process_player_actions}

-- What the steady clock shows to the four functions that read it, in one round of the loop.
pub record Times : Type 0 where
  pub bullets : ℕ
  pub enemies : ℕ
  pub wave : ℕ
  pub ui : ℕ

module _ ⦃p : Platform⦄ where
  open p use {Real, lit, add, mul, print_real}

  -- The loop from player `i` on, for so many players.
  unfoldable pub initialize_from : ℕ → ℕ → Game → Result Game
  unfolding spawn_player
  initialize_from zero i g = ok g
  initialize_from (suc left) i g =
      spawn_player i (mul (lit 100) (add (lit i) (lit 1))) (lit 100) g
      >>= initialize_from left (i + 1)

  unfoldable pub initialize_players : ℕ → Game → Result Game
  unfolding initialize_from
  initialize_players n g = initialize_from n 0 (record g { total_players = pos n })

  unfoldable pub announce_scores : Map Player → Game → Game
  unfolding announce_in
  announce_scores [] g = g
  announce_scores ((id, q) ∷ m) g = announce_scores m (
      announce_in ui_update (entity_data id (print_real q.hp) (print_real q.score) (codes ";0;0"))
        g)

  unfoldable pub update_ui : ℕ → Game → Game
  unfolding announce_scores
  update_ui now g =
      if leb 1 (elapsed second g.last_ui_time now)
      then record (announce_scores g.players g) { last_ui_time = some now }
      else record g { last_ui_time = started g.last_ui_time now }

  unfoldable pub stop : Game → Game
  stop g = record g {
    players = [];
    enemies = [];
    bullets = [];
    bosses = [];
    dead_players = [];
    dead_enemies = [];
    dead_bullets = [];
    dead_bosses = [];
  }

  unfoldable pub check_players_alive : Game → Game × Bool
  unfolding announce_in stop
  check_players_alive g =
      let g' = record g { total_players = pos (length g.server.clients) } in
      if length g.server.clients == 0 || is_empty g.players
      then (stop (announce_in game_end (codes "0;0;0;0;0") g'), false)
      else (g', true)

  -- One round of the loop of `update`.
  unfoldable pub update_round : Times → Game → Result Game
  unfolding process_player_actions update_bullets update_enemies check_collisions wave_system
      update_ui
  update_round t g = do
    g₁ ← process_player_actions g
    g₂ ← update_bullets t.bullets g₁
    g₃ ← update_enemies t.enemies g₂
    g₄ ← check_collisions g₃
    g₅ ← wave_system t.wave g₄
    ok (update_ui t.ui g₅)

  -- How far a call has come after so many rounds: it returned, it is still in its loop, or it threw.
  pub data Progress : Type 0 where
    returned running : Game → Progress
    failed : Exception → Progress

  -- `while (true) { … }`, for the rounds whose times are given.
  unfoldable pub update : List Times → Game → Progress
  update [] g = running g
  update (t ∷ ts) g = elim (update_round t g) [ thrown e ↦ failed e | ok g' ↦ update ts g' ]

  -- `while (true) { update(); if (!checkPlayersAlive()) break; }`: once for each list of times.
  unfoldable pub run_loop : List (List Times) → Game → Progress
  run_loop [] g = running g
  run_loop (ts ∷ tss) g = elim (update ts g) [
    | running g' ↦ running g'
    | failed e ↦ failed e
    | returned g' ↦
        let (g'', alive) = check_players_alive g' in
        let rest = run_loop tss g'' in if alive then rest else returned g''
  ]

  -- `run`. Nothing registers a system.
  unfoldable pub run : ℕ → List (List Times) → Game → Progress
  unfolding run_systems initialize_players run_loop
  run n tss g =
      elim (run_systems [] g.registry >>= λ r. initialize_players n (record g { registry = r })) [
        | thrown e ↦ failed e
        | ok g' ↦ run_loop tss g'
      ]
