-- ===== src/Game/Waves/Cycle.antt =====
-- The counters of the waves. `waveSystem` and `startNextWave` both count a wave.
use native.Mathlib.Omega.{arith}
use bee_r_type.Prelude.{
  ℕ, zero, suc, ◌+◌, ◌%◌, ◌≡◌, refl, ◌∙◌, ◌≢◌, ◌==◌, ==_iff, inl, inr, Bool-cases, false, ok, ◌>>=◌,
  >>=-ok, ok-injective,
}
use bee_r_type.Platform.{Platform}
use bee_r_type.Entities.{new_enemy, new_boss}
use bee_r_type.Game.State.{Game}
use bee_r_type.Game.Spawning.{spawn_enemy, spawn_boss, announce_in}
use bee_r_type.Game.Waves.{
  spawn_next_enemy, spawn_next_boss, spawn_enemies, start_next_wave, next_wave,
}

not_both : (n : ℕ) → n ≡ 0 → (n == 0) ≡ false → ⊥
not_both n e q = ground arith

module _ ⦃p : Platform⦄ where
  open p use {lit, draw_y}

  -- The counters: wave, enemies for a normal wave, next enemy, next boss.
  pub record Counts (g : Game) (wave per_wave enemy boss : ℕ) : Type 0 where
    pub wave_is : g.current_wave ≡ wave
    pub per_wave_is : g.enemies_per_wave ≡ per_wave
    pub enemy_is : g.enemy_id ≡ enemy
    pub boss_is : g.boss_id ≡ boss

  spawn_next_enemy-Counts :
      (g : Game) {g' : Game}
      → spawn_next_enemy g ≡ ok g'
      → Counts g' g.current_wave g.enemies_per_wave (g.enemy_id + 1) g.boss_id
  unfolding spawn_next_enemy spawn_enemy announce_in
  spawn_next_enemy-Counts g h =
      let (e, _, left) = >>=-ok (new_enemy g.registry (lit 1000) (draw_y g.rng)) _ h in
      rw (← ok-injective left)
        (record { wave_is = refl; per_wave_is = refl; enemy_is = refl; boss_is = refl })

  spawn_next_boss-Counts :
      (g : Game) {g' : Game}
      → spawn_next_boss g ≡ ok g'
      → Counts g' g.current_wave g.enemies_per_wave g.enemy_id (g.boss_id + 1)
  unfolding spawn_next_boss spawn_boss announce_in
  spawn_next_boss-Counts g h =
      let (e, _, left) = >>=-ok (new_boss g.registry (lit 1000) (draw_y g.rng)) _ h in
      rw (← ok-injective left)
        (record { wave_is = refl; per_wave_is = refl; enemy_is = refl; boss_is = refl })

  spawn_enemies-Counts :
      (n : ℕ) (g : Game) {g' : Game}
      → spawn_enemies n g ≡ ok g'
      → Counts g' g.current_wave g.enemies_per_wave (g.enemy_id + n) g.boss_id
  unfolding spawn_enemies
  spawn_enemies-Counts zero g h =
      rw (← ok-injective h)
        (record { wave_is = refl; per_wave_is = refl; enemy_is = omega arith; boss_is = refl })
  spawn_enemies-Counts (suc n) g h =
      let (m, first, rest) = >>=-ok (spawn_next_enemy g) _ h in
      let a = spawn_next_enemy-Counts g first in
      let b = spawn_enemies-Counts n m rest in
      record {
        wave_is = b.wave_is ∙ a.wave_is;
        per_wave_is = b.per_wave_is ∙ a.per_wave_is;
        enemy_is = omega (arith, b.enemy_is, a.enemy_is);
        boss_is = b.boss_is ∙ a.boss_is;
      }

  -- A wave that succeeds: a boss with four enemies if the counter reaches a multiple of three, and a
  -- normal wave, which counts once more and makes the next one greater by five enemies, otherwise.
  pub next_wave-Counts :
      (g : Game) {g' : Game}
      → next_wave g ≡ ok g'
      → ((g.current_wave + 1) % 3 ≡ 0
          → Counts g' (g.current_wave + 1) g.enemies_per_wave (g.enemy_id + 4) (g.boss_id + 1))
        × ((g.current_wave + 1) % 3 ≢ 0
            → Counts g'
                (g.current_wave + 2)
                (g.enemies_per_wave + 5)
                (g.enemy_id + g.enemies_per_wave)
                g.boss_id)
  unfolding next_wave start_next_wave
  next_wave-Counts g {g'} h = elim (Bool-cases ((g.current_wave + 1) % 3 == 0)) [
    | inl q ↦
        let g₁ = record g { current_wave = g.current_wave + 1 } in
        let h' : (spawn_next_boss g₁ >>= spawn_enemies 4) ≡ ok g' = rw q at h in
        let (m, first, rest) = >>=-ok (spawn_next_boss g₁) _ h' in
        let a = spawn_next_boss-Counts g₁ first in
        let b = spawn_enemies-Counts 4 m rest in
        (
          λ _. record {
            wave_is = b.wave_is ∙ a.wave_is;
            per_wave_is = b.per_wave_is ∙ a.per_wave_is;
            enemy_is = omega (arith, b.enemy_is, a.enemy_is);
            boss_is = b.boss_is ∙ a.boss_is;
          },
          λ ne. absurd (ne ((==_iff _ _).0 q)),
        )
    | inr q ↦
        let g₁ = record g { current_wave = g.current_wave + 1 + 1 } in
        let h' : (spawn_enemies g.enemies_per_wave g₁ >>= λ m.
        ok (record m { enemies_per_wave = m.enemies_per_wave + 5 }))
            ≡ ok g' =
          rw q at h in
        let (m, all, left) = >>=-ok (spawn_enemies g.enemies_per_wave g₁) _ h' in
        let b = spawn_enemies-Counts g.enemies_per_wave g₁ all in
        (
          λ e. absurd (not_both _ e q),
          λ _. rw (← ok-injective left) (record {
            wave_is = omega (arith, b.wave_is);
            per_wave_is = omega (arith, b.per_wave_is);
            enemy_is = b.enemy_is;
            boss_is = b.boss_is;
          }),
        )
  ]

  -- From a counter that is a multiple of three, as at the start, two waves that succeed are a normal one
  -- and then one with a boss: the counter grows by three, the enemies of a normal wave by five, and the
  -- two make one boss and four enemies more than a normal wave had.
  pub next_wave_cycle :
      (g : Game) {g₁ g₂ : Game}
      → g.current_wave % 3 ≡ 0
      → next_wave g ≡ ok g₁
      → next_wave g₁ ≡ ok g₂
      → Counts g₂
          (g.current_wave + 3)
          (g.enemies_per_wave + 5)
          (g.enemy_id + g.enemies_per_wave + 4)
          (g.boss_id + 1)
  next_wave_cycle g {g₁} h first second =
      let a = (next_wave-Counts g first).1 (λ e. omega arith) in
      let at_two = a.wave_is in
      let b = (next_wave-Counts g₁ second).0 (omega arith) in
      record {
        wave_is = omega (arith, b.wave_is, a.wave_is);
        per_wave_is = b.per_wave_is ∙ a.per_wave_is;
        enemy_is = omega (arith, b.enemy_is, a.enemy_is);
        boss_is = omega (arith, b.boss_is, a.boss_is);
      }
