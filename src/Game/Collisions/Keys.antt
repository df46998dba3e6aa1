-- ===== src/Game/Collisions/Keys.antt =====
-- The keys of the four maps of entities through a round of collisions.
use mathlib.Core.List.{Nodup}
use bee_r_type.Prelude.{
  ℕ, ◌≡◌, refl, subst, inl, inr, true, false, List, [], ◌∷◌, ok, >>=-ok, ok-injective, Option-cases,
}
use bee_r_type.Prelude.Map
use bee_r_type.Prelude.Map.{Map, keys}
use bee_r_type.Platform.{Platform}
use bee_r_type.Prelude.Int.{pos, ◌-ℤ◌}
use bee_r_type.Network.Packet.{
  PacketType, destroy_enemy, destroy_boss, destroy_player, destroy_bullet,
}
use bee_r_type.Server.News.{destroyed-IsNews}
use bee_r_type.Server.Telling.{Tells-refl}
use bee_r_type.Game.State.{Game, destroy_data}
use bee_r_type.Game.Keys.{
  Thins, Thins-≡, Thins-trans, Thins-erase, KeepsKeys, KeepsKeys-trans, SameKeys, SameKeys-refl,
  SameKeys-trans, SameKeys-KeepsKeys,
}
use bee_r_type.Game.Spawning.{announce_in}
use bee_r_type.Game.Collisions.{
  detect_bullet_enemy, detect_bullet_boss, detect_player_enemy, detect_player_boss,
  detect_out_of_bounds, remove_loop, remove_enemies, remove_bosses, remove_players, remove_bullets,
  check_collisions,
}
use bee_r_type.Game.Collisions.Detections.{
  announce_in-SameKeys, bounds-SameKeys, detections-SameKeys,
}

module _ ⦃p : Platform⦄ where
  open p use {Real, lit, le, neg}

  pub record HasDistinctKeys (g : Game) : Type 0 where
    pub players : Nodup (keys g.players)
    pub bullets : Nodup (keys g.bullets)
    pub enemies : Nodup (keys g.enemies)
    pub bosses : Nodup (keys g.bosses)

  KeepsKeys-HasDistinctKeys :
      {g g' : Game} → KeepsKeys g g' → HasDistinctKeys g → HasDistinctKeys g'
  KeepsKeys-HasDistinctKeys s d = record {
    players = s.players.nodup d.players;
    bullets = s.bullets.nodup d.bullets;
    enemies = s.enemies.nodup d.enemies;
    bosses = s.bosses.nodup d.bosses;
  }

  -- What the loop of a removal does not touch, and the map that it shrinks.
  remove_loop-Thins {ℓ} :
      {V : Type ℓ} (type : PacketType) (also : ℕ → Game → Game)
      (same : (id : ℕ) (g : Game) → SameKeys g (also id g)) (ids : List ℕ) (m : Map V) (g : Game)
      → let (_, m', g') = remove_loop type also ids m g in Thins (keys m) (keys m') × SameKeys g g'
  unfolding remove_loop
  remove_loop-Thins type also same [] m g = (Thins-≡ refl, SameKeys-refl g)
  remove_loop-Thins type also same (id ∷ ids) m g = elim (Option-cases (Map.find id m)) [
    | inl q ↦ rw (q, remove_loop) (remove_loop-Thins type also same ids m g)
    | inr (v, q) ↦
        let told = announce_in type (destroy_data id) g in
        let (t, s) = remove_loop-Thins type also same ids (Map.erase id m) (also id told) in
        rw (q, remove_loop)
          (
            Thins-trans (Thins-erase id m) t,
            SameKeys-trans
                (SameKeys-trans
                  (announce_in-SameKeys type (destroy_data id) g (destroyed-IsNews id))
                  (same id told))
                s,
          )
  ]

  remove_enemies-KeepsKeys : (g : Game) → KeepsKeys g (remove_enemies g)
  unfolding remove_enemies
  remove_enemies-KeepsKeys g =
      let (shrinks, s) =
        remove_loop-Thins destroy_enemy (λ id g. g) (λ id. SameKeys-refl) g.dead_enemies g.enemies
          g in
      let rest = SameKeys-KeepsKeys s in
      record {
        players = rest.players;
        bullets = rest.bullets;
        enemies = shrinks;
        bosses = rest.bosses;
        counted = rest.counted;
        told = rest.told;
        registry = rest.registry;
      }

  remove_bosses-KeepsKeys : (g : Game) → KeepsKeys g (remove_bosses g)
  unfolding remove_bosses
  remove_bosses-KeepsKeys g =
      let (shrinks, s) =
        remove_loop-Thins destroy_boss (λ id g. g) (λ id. SameKeys-refl) g.dead_bosses g.bosses g in
      let rest = SameKeys-KeepsKeys s in
      record {
        players = rest.players;
        bullets = rest.bullets;
        enemies = rest.enemies;
        bosses = shrinks;
        counted = rest.counted;
        told = rest.told;
        registry = rest.registry;
      }

  remove_players-KeepsKeys : (g : Game) → KeepsKeys g (remove_players g)
  unfolding remove_players
  remove_players-KeepsKeys g =
      let (shrinks, s) =
        remove_loop-Thins destroy_player
          (λ id g. record g { total_players = g.total_players -ℤ pos 1 })
          (λ id g. record {
            players = refl;
            bullets = refl;
            enemies = refl;
            bosses = refl;
            counted = refl;
            told = Tells-refl _;
            registry = refl;
          })
          g.dead_players g.players g in
      let rest = SameKeys-KeepsKeys s in
      record {
        players = shrinks;
        bullets = rest.bullets;
        enemies = rest.enemies;
        bosses = rest.bosses;
        counted = rest.counted;
        told = rest.told;
        registry = rest.registry;
      }

  remove_bullets-KeepsKeys : (g : Game) → KeepsKeys g (remove_bullets g)
  unfolding remove_bullets
  remove_bullets-KeepsKeys g =
      let (shrinks, s) =
        remove_loop-Thins destroy_bullet
          (λ id g. record g { bullet_shooters = Map.erase id g.bullet_shooters })
          (λ id g. record {
            players = refl;
            bullets = refl;
            enemies = refl;
            bosses = refl;
            counted = refl;
            told = Tells-refl _;
            registry = refl;
          })
          g.dead_bullets g.bullets g in
      let rest = SameKeys-KeepsKeys s in
      record {
        players = rest.players;
        bullets = shrinks;
        enemies = rest.enemies;
        bosses = rest.bosses;
        counted = rest.counted;
        told = rest.told;
        registry = rest.registry;
      }

  pub check_collisions-KeepsKeys : (g g' : Game) → check_collisions g ≡ ok g' → KeepsKeys g g'
  unfolding check_collisions
  check_collisions-KeepsKeys g g' h =
      let (g₁, d₁, h₁) = >>=-ok (detect_bullet_enemy false g) _ h in
      let (g₂, d₂, h₂) = >>=-ok (detect_bullet_boss false g₁) _ h₁ in
      let (g₃, d₃, h₃) = >>=-ok (detect_player_enemy (neg (lit 10)) true g₂) _ h₂ in
      let (g₄, d₄, h₄) = >>=-ok (detect_player_boss (neg (lit 20)) true g₃) _ h₃ in
      let (g₅, d₅, h₅) = >>=-ok (detect_out_of_bounds g₄) _ h₄ in
      let same =
        SameKeys-trans (detections-SameKeys g g₁ g₂ g₃ g₄ d₁ d₂ d₃ d₄) (bounds-SameKeys g₄ g₅ d₅) in
      let g₆ = remove_bullets g₅ in
      let g₇ = remove_enemies g₆ in
      subst (KeepsKeys g) (ok-injective h₅) (
        KeepsKeys-trans (SameKeys-KeepsKeys same) (
          KeepsKeys-trans (remove_bullets-KeepsKeys g₅) (
            KeepsKeys-trans (remove_enemies-KeepsKeys g₆) (
              KeepsKeys-trans (remove_players-KeepsKeys g₇)
                (remove_bosses-KeepsKeys (remove_players g₇))))))

  -- `checkCollisions`, if it does not throw, keeps the maps of players, bullets, enemies and bosses
  -- proper: where no key stood twice in any of them, none does afterwards.
  pub check_collisions-HasDistinctKeys :
      (g g' : Game) → HasDistinctKeys g → check_collisions g ≡ ok g' → HasDistinctKeys g'
  check_collisions-HasDistinctKeys g g' d h =
      KeepsKeys-HasDistinctKeys (check_collisions-KeepsKeys g g' h) d
