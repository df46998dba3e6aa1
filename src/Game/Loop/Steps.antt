-- ===== src/Game/Loop/Steps.antt =====
-- The steps of a round: the keys of the maps of entities, and what the server is told.
use bee_r_type.Prelude.{
  ℕ, zero, suc, ◌+◌, ◌≡◌, refl, sym, ap, subst, ◌∙◌, inl, inr, [], ◌∷◌, Result, ok, >>=-ok,
  ok-injective, Bool-cases, leb, if_true, if_false, ◌%◌, ◌==◌, Option, codes,
}
use bee_r_type.Prelude.Map.{Map, keys}
use bee_r_type.Platform.{Platform}
use bee_r_type.Network.Packet.{create_enemy, create_boss}
use bee_r_type.Entities.{Body, move_bullet, move_enemy, move_boss, new_enemy, new_boss}
use bee_r_type.Server.News.{enemy-IsNews, boss-IsNews}
use bee_r_type.Server.Telling.{Tells-refl, Tells-announce}
use bee_r_type.Game.State.{Game, entity_data, elapsed, started, second, millisecond}
use bee_r_type.Game.Keys.{
  SameKeys, emplace_next, Advances, Advances-refl, Advances-trans, SameKeys-Advances,
}
use bee_r_type.Game.Spawning.{announce_in, spawn_enemy, spawn_boss}
use bee_r_type.Game.Drift.{move_each, update_bullets, update_enemies}
use bee_r_type.Game.Waves.{
  spawn_next_enemy, spawn_next_boss, spawn_enemies, start_next_wave, next_wave, wave_system,
}

module _ ⦃p : Platform⦄ where
  open p use {Real, lit, neg, tenth, print_real}

  keys-move_each :
      (step : Body → Result Body) (m m' : Map Body) → move_each step m ≡ ok m' → keys m' ≡ keys m
  unfolding move_each
  keys-move_each step [] m' h = sym (ap keys (ok-injective h))
  keys-move_each step ((id, b) ∷ m) m' h =
      let (b', _, h₁) = >>=-ok (step b) _ h in
      let (n, moved, h₂) = >>=-ok (move_each step m) _ h₁ in
      sym (ap keys (ok-injective h₂)) ∙ ap (λ l. id ∷ l) (keys-move_each step m n moved)

  pub update_bullets-SameKeys :
      (now : ℕ) (g g' : Game) → update_bullets now g ≡ ok g' → SameKeys g g'
  unfolding update_bullets
  update_bullets-SameKeys now g g' h =
      elim (Bool-cases (leb 16 (elapsed millisecond g.last_bullets_time now))) [
        | inl q ↦
            let (m, moved, e) =
              >>=-ok (move_each (move_bullet (lit 5) (lit 0)) g.bullets) _
                (sym (if_true _ _ q) ∙ h) in
            subst (SameKeys g) (ok-injective e) (record {
              players = refl;
              bullets = keys-move_each _ g.bullets m moved;
              enemies = refl;
              bosses = refl;
              counted = refl;
              told = Tells-refl _;
              registry = refl;
            })
        | inr q ↦ subst (SameKeys g) (ok-injective (sym (if_false _ _ q) ∙ h)) (record {
          players = refl;
          bullets = refl;
          enemies = refl;
          bosses = refl;
          counted = refl;
          told = Tells-refl _;
          registry = refl;
        })
      ]

  pub update_enemies-SameKeys :
      (now : ℕ) (g g' : Game) → update_enemies now g ≡ ok g' → SameKeys g g'
  unfolding update_enemies
  update_enemies-SameKeys now g g' h =
      elim (Bool-cases (leb 16 (elapsed millisecond g.last_enemies_time now))) [
        | inl q ↦
            let (m, moved, h₁) =
              >>=-ok (move_each (move_enemy (neg (lit 1)) (lit 0)) g.enemies) _
                (sym (if_true _ _ q) ∙ h) in
            let (n, moved', e) = >>=-ok (move_each (move_boss (neg tenth) (lit 0)) g.bosses) _ h₁ in
            subst (SameKeys g) (ok-injective e) (record {
              players = refl;
              bullets = refl;
              enemies = keys-move_each _ g.enemies m moved;
              bosses = keys-move_each _ g.bosses n moved';
              counted = refl;
              told = Tells-refl _;
              registry = refl;
            })
        | inr q ↦ subst (SameKeys g) (ok-injective (sym (if_false _ _ q) ∙ h)) (record {
          players = refl;
          bullets = refl;
          enemies = refl;
          bosses = refl;
          counted = refl;
          told = Tells-refl _;
          registry = refl;
        })
      ]

  -- A change of the fields that neither the keys nor the server depend on.
  wave_field-Advances :
      (wave : ℕ) (per : ℕ) (last : Option ℕ) (g : Game)
      → Advances g (record g { current_wave = wave; enemies_per_wave = per; last_wave_time = last })
  wave_field-Advances wave per last g = SameKeys-Advances (record {
    players = refl;
    bullets = refl;
    enemies = refl;
    bosses = refl;
    counted = refl;
    told = Tells-refl g.server;
    registry = refl;
  })

  spawn_next_enemy-Advances : (g g' : Game) → spawn_next_enemy g ≡ ok g' → Advances g g'
  unfolding spawn_next_enemy spawn_enemy announce_in
  spawn_next_enemy-Advances g g' h =
      let (e, _, h₁) = >>=-ok (new_enemy g.registry _ _) _ h in
      subst (Advances g) (ok-injective h₁) (record {
        fresh = λ d. record {
          players = d.players;
          bullets = d.bullets;
          enemies = emplace_next g.enemy_id e g.enemies d.enemies.0 d.enemies.1;
          bosses = d.bosses;
        };
        told =
            Tells-announce create_enemy
              (entity_data g.enemy_id (print_real (lit 1000)) (print_real (p.draw_y g.rng))
                (codes ";-1;0"))
              g.server (enemy-IsNews g.enemy_id (lit 1000) (p.draw_y g.rng));
        registry = refl;
      })

  spawn_next_boss-Advances : (g g' : Game) → spawn_next_boss g ≡ ok g' → Advances g g'
  unfolding spawn_next_boss spawn_boss announce_in
  spawn_next_boss-Advances g g' h =
      let (b, _, h₁) = >>=-ok (new_boss g.registry _ _) _ h in
      subst (Advances g) (ok-injective h₁) (record {
        fresh = λ d. record {
          players = d.players;
          bullets = d.bullets;
          enemies = d.enemies;
          bosses = emplace_next g.boss_id b g.bosses d.bosses.0 d.bosses.1;
        };
        told =
            Tells-announce create_boss
              (entity_data g.boss_id (print_real (lit 1000)) (print_real (p.draw_y g.rng))
                (codes ";-0.1;0"))
              g.server (boss-IsNews g.boss_id (lit 1000) (p.draw_y g.rng));
        registry = refl;
      })

  spawn_enemies-Advances : (n : ℕ) (g g' : Game) → spawn_enemies n g ≡ ok g' → Advances g g'
  unfolding spawn_enemies
  spawn_enemies-Advances zero g g' h = subst (Advances g) (ok-injective h) (Advances-refl g)
  spawn_enemies-Advances (suc n) g g' h =
      let (m, first, rest) = >>=-ok (spawn_next_enemy g) _ h in
      Advances-trans (spawn_next_enemy-Advances g m first) (spawn_enemies-Advances n m g' rest)

  start_next_wave-Advances : (g g' : Game) → start_next_wave g ≡ ok g' → Advances g g'
  unfolding start_next_wave
  start_next_wave-Advances g g' h =
      let (m, spawned, e) = >>=-ok (spawn_enemies g.enemies_per_wave _) _ h in
      subst (Advances g) (ok-injective e) (
        Advances-trans (wave_field-Advances _ _ _ g) (
          Advances-trans (spawn_enemies-Advances g.enemies_per_wave _ m spawned)
            (wave_field-Advances _ _ _ m)))

  next_wave-Advances : (g g' : Game) → next_wave g ≡ ok g' → Advances g g'
  unfolding next_wave
  next_wave-Advances g g' h =
      let g₁ = record g { current_wave = g.current_wave + 1 } in
      Advances-trans
        (wave_field-Advances (g.current_wave + 1) g.enemies_per_wave g.last_wave_time g)
        (elim (Bool-cases (g₁.current_wave % 3 == 0)) [
          | inl q ↦
              let (m, boss, rest) = >>=-ok (spawn_next_boss g₁) _ (sym (if_true _ _ q) ∙ h) in
              Advances-trans (spawn_next_boss-Advances g₁ m boss)
                (spawn_enemies-Advances 4 m g' rest)
          | inr q ↦ start_next_wave-Advances g₁ g' (sym (if_false _ _ q) ∙ h)
        ])

  pub wave_system-Advances : (now : ℕ) (g g' : Game) → wave_system now g ≡ ok g' → Advances g g'
  unfolding wave_system
  wave_system-Advances now g g' h =
      let last = started g.last_wave_time now in
      let g₁ = record g { last_wave_time = last } in
      let begun = wave_field-Advances g.current_wave g.enemies_per_wave last g in
      elim (Bool-cases (leb 10 (elapsed second g.last_wave_time now))) [
        | inl q ↦
            let (m, waved, e) = >>=-ok (next_wave g₁) _ (sym (if_true _ _ q) ∙ h) in
            subst (Advances g) (ok-injective e) (
              Advances-trans begun
                (Advances-trans (next_wave-Advances g₁ m waved) (wave_field-Advances _ _ _ m)))
        | inr q ↦ subst (Advances g) (ok-injective (sym (if_false _ _ q) ∙ h)) begun
      ]
