-- ===== src/Game/Standing/Waves.antt =====
-- The drift of the objects, the waves and the start of the players, on a game whose objects stand
-- somewhere.
use bee_r_type.Prelude.{
  ℕ, zero, suc, ◌+◌, ◌%◌, refl, inl, inr, leb, ◌==◌, Bool-cases, Succeeds, >>=-Succeeds, [], ◌∷◌,
}
use bee_r_type.Prelude.Map.{Map}
use bee_r_type.Prelude.Map.Entries.{emplace-All}
use bee_r_type.Platform.{Platform}
use bee_r_type.Entities.{Player, new_enemy, new_boss, move_bullet, move_enemy, move_boss}
use bee_r_type.Game.State.{Game, elapsed, started, second, millisecond}
use bee_r_type.Game.Spawning.{announce_in, spawn_enemy, spawn_boss}
use bee_r_type.Game.Drift.{move_each, update_bullets, update_enemies}
use bee_r_type.Game.Waves.{
  spawn_next_enemy, spawn_next_boss, spawn_enemies, start_next_wave, next_wave, wave_system,
}
use bee_r_type.Game.Loop.{announce_scores, update_ui}
use bee_r_type.Game.Standing.{
  IsPlaced, ArePlaced, HasPositions, >>=-HasPositions, new_body-IsPlaced, move_body-IsPlaced,
  move_each-ArePlaced,
}

module _ ⦃p : Platform⦄ where
  open p use {Real, lit, neg, tenth, print_real}

  pub update_bullets-HasPositions :
      (now : ℕ) (g : Game) → HasPositions g → Succeeds (update_bullets now g) HasPositions
  unfolding update_bullets move_bullet
  update_bullets-HasPositions now g (players, bullets, enemies, bosses, ready) =
      elim (Bool-cases (leb 16 (elapsed millisecond g.last_bullets_time now))) [
        | inl q ↦
            rw (q, update_bullets)
              (>>=-Succeeds ArePlaced HasPositions
                (move_each (move_bullet (lit 5) (lit 0)) g.bullets) _
                (move_each-ArePlaced _ (move_body-IsPlaced (lit 5) (lit 0)) g.bullets bullets)
                (λ m s. (_, refl, (players, s, enemies, bosses, ready))))
        | inr q ↦ rw (q, update_bullets) (_, refl, (players, bullets, enemies, bosses, ready))
      ]

  pub update_enemies-HasPositions :
      (now : ℕ) (g : Game) → HasPositions g → Succeeds (update_enemies now g) HasPositions
  unfolding update_enemies move_enemy move_boss
  update_enemies-HasPositions now g (players, bullets, enemies, bosses, ready) =
      elim (Bool-cases (leb 16 (elapsed millisecond g.last_enemies_time now))) [
        | inl q ↦
            rw (q, update_enemies)
              (>>=-Succeeds ArePlaced HasPositions
                (move_each (move_enemy (neg (lit 1)) (lit 0)) g.enemies) _
                (move_each-ArePlaced _ (move_body-IsPlaced (neg (lit 1)) (lit 0)) g.enemies enemies)
                (λ m s.
                  >>=-Succeeds ArePlaced HasPositions
                    (move_each (move_boss (neg tenth) (lit 0)) g.bosses) _
                    (move_each-ArePlaced _ (move_body-IsPlaced (neg tenth) (lit 0)) g.bosses bosses)
                    (λ n t. (_, refl, (players, bullets, s, t, ready)))))
        | inr q ↦ rw (q, update_enemies) (_, refl, (players, bullets, enemies, bosses, ready))
      ]

  spawn_next_enemy-HasPositions :
      (g : Game) → HasPositions g → Succeeds (spawn_next_enemy g) HasPositions
  unfolding spawn_next_enemy spawn_enemy new_enemy announce_in
  spawn_next_enemy-HasPositions g (players, bullets, enemies, bosses, ready) =
      >>=-Succeeds IsPlaced HasPositions (new_enemy g.registry (lit 1000) (p.draw_y g.rng)) _
        (new_body-IsPlaced g.registry _ ready)
        (λ e s. (
          _,
          refl,
          (
            players,
            bullets,
            emplace-All (λ x. IsPlaced x.1) g.enemy_id e g.enemies s enemies,
            bosses,
            ready,
          ),
        ))

  spawn_next_boss-HasPositions :
      (g : Game) → HasPositions g → Succeeds (spawn_next_boss g) HasPositions
  unfolding spawn_next_boss spawn_boss new_boss announce_in
  spawn_next_boss-HasPositions g (players, bullets, enemies, bosses, ready) =
      >>=-Succeeds IsPlaced HasPositions (new_boss g.registry (lit 1000) (p.draw_y g.rng)) _
        (new_body-IsPlaced g.registry _ ready)
        (λ b s. (
          _,
          refl,
          (
            players,
            bullets,
            enemies,
            emplace-All (λ x. IsPlaced x.1) g.boss_id b g.bosses s bosses,
            ready,
          ),
        ))

  spawn_enemies-HasPositions :
      (n : ℕ) (g : Game) → HasPositions g → Succeeds (spawn_enemies n g) HasPositions
  unfolding spawn_enemies
  spawn_enemies-HasPositions zero g h = (g, refl, h)
  spawn_enemies-HasPositions (suc n) g h =
      >>=-HasPositions (spawn_next_enemy g) _ (spawn_next_enemy-HasPositions g h)
        (spawn_enemies-HasPositions n)

  next_wave-HasPositions : (g : Game) → HasPositions g → Succeeds (next_wave g) HasPositions
  unfolding next_wave start_next_wave
  next_wave-HasPositions g h = elim (Bool-cases ((g.current_wave + 1) % 3 == 0)) [
    | inl q ↦
        let g₁ = record g { current_wave = g.current_wave + 1 } in
        rw q (
          >>=-HasPositions (spawn_next_boss g₁) _ (spawn_next_boss-HasPositions g₁ h)
            (spawn_enemies-HasPositions 4))
    | inr q ↦
        let g₁ = record g { current_wave = g.current_wave + 1 + 1 } in
        rw q (
          >>=-HasPositions (spawn_enemies g.enemies_per_wave g₁) _
            (spawn_enemies-HasPositions g.enemies_per_wave g₁ h) (λ g' k. (_, refl, k)))
  ]

  pub wave_system-HasPositions :
      (now : ℕ) (g : Game) → HasPositions g → Succeeds (wave_system now g) HasPositions
  unfolding wave_system
  wave_system-HasPositions now g h =
      elim (Bool-cases (leb 10 (elapsed second g.last_wave_time now))) [
        | inl q ↦
            let g₁ = record g { last_wave_time = started g.last_wave_time now } in
            rw q (
              >>=-HasPositions (next_wave g₁) _ (next_wave-HasPositions g₁ h)
                (λ g' k. (_, refl, k)))
        | inr q ↦ rw q (_, refl, h)
      ]

  announce_scores-HasPositions :
      (m : Map Player) (g : Game) → HasPositions g → HasPositions (announce_scores m g)
  unfolding announce_scores announce_in
  announce_scores-HasPositions [] g h = h
  announce_scores-HasPositions ((id, q) ∷ m) g h = announce_scores-HasPositions m _ h

  pub update_ui-HasPositions :
      (now : ℕ) (g : Game) → HasPositions g → HasPositions (update_ui now g)
  unfolding update_ui
  update_ui-HasPositions now g h = elim (Bool-cases (leb 1 (elapsed second g.last_ui_time now))) [
    | inl q ↦ rw q (announce_scores-HasPositions g.players g h)
    | inr q ↦ rw q h
  ]
