-- ===== src/Game/Waves/Total.antt =====
-- The waves do not fail: `waveSystem` on a game whose registry can make objects.
use bee_r_type.Prelude.{
  ℕ, zero, suc, ◌+◌, ◌%◌, ◌≡◌, refl, sym, subst, ◌∙◌, inl, inr, some, leb, ◌==◌, if◌then◌else◌,
  Bool-cases, ok, ok->>=,
}
use bee_r_type.Platform.{Platform}
use bee_r_type.Game.State.{Game, elapsed, started, second}
use bee_r_type.Game.Spawning.Total.{IsReady, spawn_enemy-total, spawn_boss-total}
use bee_r_type.Game.Waves.{
  spawn_next_enemy, spawn_next_boss, spawn_enemies, start_next_wave, next_wave, wave_system,
}
use bee_r_type.Game.Waves.Cycle.{Counts, next_wave_cycle}

module _ ⦃p : Platform⦄ where
  spawn_next_enemy-total :
      (g : Game)
      → IsReady g.registry
      → (g' : Game) × (spawn_next_enemy g ≡ ok g') × (g'.registry ≡ g.registry)
  unfolding spawn_next_enemy
  spawn_next_enemy-total g ready = spawn_enemy-total _ _ _ ready

  spawn_next_boss-total :
      (g : Game)
      → IsReady g.registry
      → (g' : Game) × (spawn_next_boss g ≡ ok g') × (g'.registry ≡ g.registry)
  unfolding spawn_next_boss
  spawn_next_boss-total g ready = spawn_boss-total _ _ _ ready

  spawn_enemies-total :
      (n : ℕ) (g : Game)
      → IsReady g.registry
      → (g' : Game) × (spawn_enemies n g ≡ ok g') × (g'.registry ≡ g.registry)
  unfolding spawn_enemies
  spawn_enemies-total zero g ready = (g, refl, refl)
  spawn_enemies-total (suc n) g ready =
      let (m, first, same) = spawn_next_enemy-total g ready in
      let (g', rest, same') = spawn_enemies-total n m (subst IsReady (sym same) ready) in
      (g', ok->>= (spawn_next_enemy g) (spawn_enemies n) first ∙ rest, same' ∙ same)

  next_wave-total :
      (g : Game)
      → IsReady g.registry
      → (g' : Game) × (next_wave g ≡ ok g') × (g'.registry ≡ g.registry)
  unfolding next_wave start_next_wave
  next_wave-total g ready = elim (Bool-cases ((g.current_wave + 1) % 3 == 0)) [
    | inl q ↦
        let g₁ = record g { current_wave = g.current_wave + 1 } in
        let (m, first, same) = spawn_next_boss-total g₁ ready in
        let (g', rest, same') = spawn_enemies-total 4 m (subst IsReady (sym same) ready) in
        (g', rw q (ok->>= (spawn_next_boss g₁) (spawn_enemies 4) first ∙ rest), same' ∙ same)
    | inr q ↦
        let g₁ = record g { current_wave = g.current_wave + 1 + 1 } in
        let (m, all, same) = spawn_enemies-total g.enemies_per_wave g₁ ready in
        let g' = record m { enemies_per_wave = m.enemies_per_wave + 5 } in
        (g', rw q (ok->>= (spawn_enemies g.enemies_per_wave g₁) _ all), same)
  ]

  -- If the game's registry is valid, knows positions and has identifiers left, then `waveSystem` does
  -- not throw, whatever the time is, and leaves the registry as it was, so that it succeeds the next
  -- time too. The time of the last wave becomes now exactly if ten seconds have passed since it.
  pub wave_system-total :
      (now : ℕ) (g : Game)
      → IsReady g.registry
      → (g' : Game) × (wave_system now g ≡ ok g')
        × (g'.registry ≡ g.registry)
        × (g'.last_wave_time ≡ (
            if leb 10 (elapsed second g.last_wave_time now)
            then some now
            else started g.last_wave_time now))
  unfolding wave_system
  wave_system-total now g ready = elim (Bool-cases (leb 10 (elapsed second g.last_wave_time now))) [
    | inl q ↦
        let g₁ = record g { last_wave_time = started g.last_wave_time now } in
        let (m, next, same) = next_wave-total g₁ ready in
        let g' = record m { last_wave_time = some now } in
        (g', rw q (ok->>= (next_wave g₁) _ next), same, rw q)
    | inr q ↦
        let g' = record g { last_wave_time = started g.last_wave_time now } in
        (g', rw q, refl, rw q)
  ]

  -- If the game's registry is valid, knows positions and has identifiers left, two waves succeed. From a
  -- counter that is a multiple of three, as at the start, they are a normal one and then one with a
  -- boss: the counter grows by three, the enemies of a normal wave by five, and the two make one
  -- boss and four enemies more than a normal wave had.
  pub ready_waves_cycle :
      (g : Game)
      → IsReady g.registry
      → g.current_wave % 3 ≡ 0
      → (g₁ g₂ : Game) × (next_wave g ≡ ok g₁)
        × (next_wave g₁ ≡ ok g₂)
        × Counts g₂
            (g.current_wave + 3)
            (g.enemies_per_wave + 5)
            (g.enemy_id + g.enemies_per_wave + 4)
            (g.boss_id + 1)
  ready_waves_cycle g ready third =
      let (g₁, first, same) = next_wave-total g ready in
      let (g₂, second, _) = next_wave-total g₁ (subst IsReady (sym same) ready) in
      (g₁, g₂, first, second, next_wave_cycle g third first second)
