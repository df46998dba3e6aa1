-- ===== src/Game/Collisions/Hits.antt =====
-- Whether two bodies collide, and what a collision does to each: R-Type/src/Game.cpp.
use bee_r_type.Prelude.{ℕ, Bool, false, ◌&&◌, [], ◌∷◌, ◌++◌, if◌then◌else◌, map, Result, ok, ◌>>=◌}
use bee_r_type.Prelude.Map
use bee_r_type.Prelude.Map.{Map}
use bee_r_type.Platform.{Platform}
use bee_r_type.Ecs.Components.{Position}
use bee_r_type.Entities.{Body, Player, Enemy, Boss, Bullet, update_hp, update_score, position_of}
use bee_r_type.Game.State.{Game}
use bee_r_type.Game.Movement.{player_at}

module _ ⦃p : Platform⦄ where
  open p use {Real, lit, neg, add, sub, lt, le, square, sqrt}

  unfoldable pub distance : Position → Position → Real
  distance a b = sqrt (add (square (sub a.x b.x)) (square (sub a.y b.y)))

  -- Two boxes of 60 by 80 overlap.
  unfoldable pub overlap : Position → Position → Bool
  overlap a b =
      lt a.x (add b.x (lit 60))
      && lt b.x (add a.x (lit 60))
      && lt a.y (add b.y (lit 80))
      && lt b.y (add a.y (lit 80))

  -- The body of the four overloads of `checkCollision`.
  unfoldable pub check_bodies : Body → Body → Real → Result Bool
  unfolding position_of distance overlap
  check_bodies a b min_distance = do
    pos_a ← position_of a
    pos_b ← position_of b
    ok (if lt min_distance (distance pos_a pos_b) then overlap pos_a pos_b else false)

  unfoldable pub check_player_enemy : Player → Enemy → Real → Result Bool
  unfolding check_bodies
  check_player_enemy a b = check_bodies a.body b

  unfoldable pub check_player_boss : Player → Boss → Real → Result Bool
  unfolding check_bodies
  check_player_boss a b = check_bodies a.body b

  unfoldable pub check_bullet_enemy : Bullet → Enemy → Real → Result Bool
  unfolding check_bodies
  check_bullet_enemy a b = check_bodies a b

  unfoldable pub check_bullet_boss : Bullet → Boss → Real → Result Bool
  unfolding check_bodies
  check_bullet_boss a b = check_bodies a b

  -- `handleEntityADeath` for a player and for a bullet.
  unfoldable pub handle_player_death : ℕ → Real → Bool → Game → Game
  unfolding update_hp Map.adjust Map.find
  handle_player_death id damage check_hp g =
      if check_hp
      then (let players = Map.adjust id (update_hp damage) g.players in
          if le (player_at id players).hp (lit 0)
          then record g { players = players; dead_players = g.dead_players ++ id ∷ [] }
          else record g { players = players })
      else record g { dead_players = g.dead_players ++ id ∷ [] }

  unfoldable pub handle_bullet_death : ℕ → Game → Game
  handle_bullet_death id g = record g { dead_bullets = g.dead_bullets ++ id ∷ [] }

  -- `for (auto& [id, player] : players) player.updateScore(amount);`
  unfoldable pub reward_players : Real → Map Player → Map Player
  unfolding update_score
  reward_players amount = map (λ e. (e.0, update_score amount e.1))

  -- `handleEntityBDeath` for an enemy and for a boss: both branches of its test push.
  unfoldable pub handle_enemy_death : ℕ → Bool → Game → Game
  unfolding reward_players
  handle_enemy_death id check_hp g =
      let g' =
        if check_hp
        then record g { dead_enemies = g.dead_enemies ++ id ∷ [] }
        else record g { dead_enemies = g.dead_enemies ++ id ∷ [] } in
      record g' { players = reward_players (lit 5) g'.players }

  unfoldable pub handle_boss_death : ℕ → Bool → Game → Game
  unfolding reward_players
  handle_boss_death id check_hp g =
      let g' =
        if check_hp
        then record g { dead_bosses = g.dead_bosses ++ id ∷ [] }
        else record g { dead_bosses = g.dead_bosses ++ id ∷ [] } in
      record g' { players = reward_players (lit 20) g'.players }
