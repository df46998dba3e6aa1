-- ===== src/Game/Standing/Collisions.antt =====
-- A round of collisions, on a game whose objects stand somewhere.
use bee_r_type.Prelude.{
  ℕ, refl, Bool, true, false, List, [], ◌∷◌, All, if_both, Result, Succeeds, >>=-Succeeds,
}
use bee_r_type.Prelude.Map
use bee_r_type.Prelude.Map.{Map}
use bee_r_type.Prelude.Map.Entries.{adjust-All}
use bee_r_type.Platform.{Platform}
use bee_r_type.Entities.{Body, Player, position_of, update_hp, update_score}
use bee_r_type.Game.State.{Game}
use bee_r_type.Game.Movement.{player_at}
use bee_r_type.Game.Collisions.{
  check_bodies, check_bullet_enemy, check_bullet_boss, check_player_enemy, check_player_boss,
  handle_player_death, handle_bullet_death, reward_players, handle_enemy_death, handle_boss_death,
  detect_row, detect_all, detect_bullet_enemy, detect_bullet_boss, detect_player_enemy,
  detect_player_boss, detect_out_of_bounds, collect_outside, remove_enemies, remove_players,
  remove_bullets, check_collisions,
}
use bee_r_type.Game.Standing.Removals.{
  remove_bullets-HasPositions, remove_enemies-HasPositions, remove_players-HasPositions,
  remove_bosses-HasPositions,
}
use bee_r_type.Game.Standing.{
  IsPlaced, ArePlaced, PlayersPlaced, HasPositions, >>=-HasPositions, position_of-total,
}

module _ ⦃p : Platform⦄ where
  open p use {Real, lit, le, neg}

  check_bodies-total :
      (a b : Body) (d : Real)
      → IsPlaced a
      → IsPlaced b
      → Succeeds (check_bodies a b d) (λ _. Unit {0})
  unfolding check_bodies
  check_bodies-total a b d s t =
      >>=-Succeeds (λ _. Unit {0}) (λ _. Unit {0}) (position_of a) _ (position_of-total a s)
        (λ at _.
          >>=-Succeeds (λ _. Unit {0}) (λ _. Unit {0}) (position_of b) _ (position_of-total b t)
            (λ to _. (_, refl, tt)))

  -- A row of tests on objects that stand somewhere, and hits that leave the objects standing.
  detect_row-HasPositions {ℓ κ} :
      {A : Type ℓ} {B : Type κ} (P : B → Type 0) (check : A → B → Real → Result Bool)
      (hit : ℕ → ℕ → Game → Game) (id : ℕ) (a : A)
      (checks : (b : B) → P b → Succeeds (check a b (lit 10)) (λ _. Unit {0}))
      (keeps : (i j : ℕ) (g : Game) → HasPositions g → HasPositions (hit i j g)) (bs : Map B)
      (g : Game)
      → All (λ x. P x.1) bs
      → HasPositions g
      → Succeeds (detect_row check hit id a bs g) HasPositions
  unfolding detect_row
  detect_row-HasPositions P check hit id a checks keeps [] g s h = (g, refl, h)
  detect_row-HasPositions P check hit id a checks keeps ((j, b) ∷ bs) g s h =
      >>=-Succeeds (λ _. Unit {0}) HasPositions (check a b (lit 10)) _ (checks b s.0)
        (λ c _.
          detect_row-HasPositions P check hit id a checks keeps bs _ s.1
            (if_both HasPositions c (keeps id j g h) h))

  detect_all-HasPositions {ℓ κ} :
      {A : Type ℓ} {B : Type κ} (P : A → Type 0) (Q : B → Type 0)
      (check : A → B → Real → Result Bool) (hit : ℕ → ℕ → Game → Game)
      (checks : (a : A) (b : B) → P a → Q b → Succeeds (check a b (lit 10)) (λ _. Unit {0}))
      (keeps : (i j : ℕ) (g : Game) → HasPositions g → HasPositions (hit i j g)) (as' : Map A)
      (bs : Map B) (g : Game)
      → All (λ x. P x.1) as'
      → All (λ x. Q x.1) bs
      → HasPositions g
      → Succeeds (detect_all check hit as' bs g) HasPositions
  unfolding detect_all
  detect_all-HasPositions P Q check hit checks keeps [] bs g s t h = (g, refl, h)
  detect_all-HasPositions P Q check hit checks keeps ((id, a) ∷ more) bs g s t h =
      >>=-HasPositions (detect_row check hit id a bs g) _
        (detect_row-HasPositions Q check hit id a (λ b q. checks a b s.0 q) keeps bs g t h)
        (λ g' k. detect_all-HasPositions P Q check hit checks keeps more bs g' s.1 t k)

  reward_players-PlayersPlaced :
      (amount : Real) (m : Map Player) → PlayersPlaced m → PlayersPlaced (reward_players amount m)
  unfolding reward_players update_score
  reward_players-PlayersPlaced amount [] s = tt
  reward_players-PlayersPlaced amount ((id, q) ∷ m) s =
      (s.0, reward_players-PlayersPlaced amount m s.1)

  bullet_death-HasPositions :
      (id : ℕ) (g : Game) → HasPositions g → HasPositions (handle_bullet_death id g)
  unfolding handle_bullet_death
  bullet_death-HasPositions id g h = h

  player_death-HasPositions :
      (id : ℕ) (damage : Real) (check_hp : Bool) (g : Game)
      → HasPositions g
      → HasPositions (handle_player_death id damage check_hp g)
  unfolding handle_player_death update_hp
  player_death-HasPositions id damage check_hp g h =
      let (players, bullets, enemies, bosses, ready) = h in
      let hurt = Map.adjust id (update_hp damage) g.players in
      let all_placed =
        adjust-All (λ q. IsPlaced q.body) id (update_hp damage) g.players (λ q s. s) players in
      if_both HasPositions check_hp
        (if_both HasPositions (le (player_at id hurt).hp (lit 0))
          (all_placed, bullets, enemies, bosses, ready)
          (all_placed, bullets, enemies, bosses, ready))
        h

  enemy_death-HasPositions :
      (id : ℕ) (check_hp : Bool) (g : Game)
      → HasPositions g
      → HasPositions (handle_enemy_death id check_hp g)
  unfolding handle_enemy_death
  enemy_death-HasPositions id true g (players, bullets, enemies, bosses, ready) =
      (reward_players-PlayersPlaced (lit 5) g.players players, bullets, enemies, bosses, ready)
  enemy_death-HasPositions id false g (players, bullets, enemies, bosses, ready) =
      (reward_players-PlayersPlaced (lit 5) g.players players, bullets, enemies, bosses, ready)

  boss_death-HasPositions :
      (id : ℕ) (check_hp : Bool) (g : Game)
      → HasPositions g
      → HasPositions (handle_boss_death id check_hp g)
  unfolding handle_boss_death
  boss_death-HasPositions id true g (players, bullets, enemies, bosses, ready) =
      (reward_players-PlayersPlaced (lit 20) g.players players, bullets, enemies, bosses, ready)
  boss_death-HasPositions id false g (players, bullets, enemies, bosses, ready) =
      (reward_players-PlayersPlaced (lit 20) g.players players, bullets, enemies, bosses, ready)

  bullet_enemy-HasPositions :
      (check_hp : Bool) (g : Game)
      → HasPositions g
      → Succeeds (detect_bullet_enemy check_hp g) HasPositions
  unfolding detect_bullet_enemy check_bullet_enemy
  bullet_enemy-HasPositions check_hp g h =
      detect_all-HasPositions IsPlaced IsPlaced check_bullet_enemy
        (λ i j g. handle_enemy_death j check_hp (handle_bullet_death i g))
        (λ a b. check_bodies-total a b (lit 10))
        (λ i j g k.
          enemy_death-HasPositions j check_hp (handle_bullet_death i g)
            (bullet_death-HasPositions i g k))
        g.bullets g.enemies g h.1 h.2 h

  bullet_boss-HasPositions :
      (check_hp : Bool) (g : Game)
      → HasPositions g
      → Succeeds (detect_bullet_boss check_hp g) HasPositions
  unfolding detect_bullet_boss check_bullet_boss
  bullet_boss-HasPositions check_hp g h =
      detect_all-HasPositions IsPlaced IsPlaced check_bullet_boss
        (λ i j g. handle_boss_death j check_hp (handle_bullet_death i g))
        (λ a b. check_bodies-total a b (lit 10))
        (λ i j g k.
          boss_death-HasPositions j check_hp (handle_bullet_death i g)
            (bullet_death-HasPositions i g k))
        g.bullets g.bosses g h.1 h.3 h

  player_enemy-HasPositions :
      (damage : Real) (check_hp : Bool) (g : Game)
      → HasPositions g
      → Succeeds (detect_player_enemy damage check_hp g) HasPositions
  unfolding detect_player_enemy check_player_enemy
  player_enemy-HasPositions damage check_hp g h =
      detect_all-HasPositions (λ q. IsPlaced q.body) IsPlaced check_player_enemy
        (λ i j g. handle_enemy_death j check_hp (handle_player_death i damage check_hp g))
        (λ a b. check_bodies-total a.body b (lit 10))
        (λ i j g k.
          enemy_death-HasPositions j check_hp (handle_player_death i damage check_hp g)
            (player_death-HasPositions i damage check_hp g k))
        g.players g.enemies g h.0 h.2 h

  player_boss-HasPositions :
      (damage : Real) (check_hp : Bool) (g : Game)
      → HasPositions g
      → Succeeds (detect_player_boss damage check_hp g) HasPositions
  unfolding detect_player_boss check_player_boss
  player_boss-HasPositions damage check_hp g h =
      detect_all-HasPositions (λ q. IsPlaced q.body) IsPlaced check_player_boss
        (λ i j g. handle_boss_death j check_hp (handle_player_death i damage check_hp g))
        (λ a b. check_bodies-total a.body b (lit 10))
        (λ i j g k.
          boss_death-HasPositions j check_hp (handle_player_death i damage check_hp g)
            (player_death-HasPositions i damage check_hp g k))
        g.players g.bosses g h.0 h.3 h

  collect_outside-total :
      (m : Map Body) (dead : List ℕ)
      → ArePlaced m
      → Succeeds (collect_outside m dead) (λ _. Unit {0})
  unfolding collect_outside
  collect_outside-total [] dead s = (dead, refl, tt)
  collect_outside-total ((id, b) ∷ m) dead s =
      >>=-Succeeds (λ _. Unit {0}) (λ _. Unit {0}) (position_of b) _ (position_of-total b s.0)
        (λ at _. collect_outside-total m _ s.1)

  out_of_bounds-HasPositions :
      (g : Game) → HasPositions g → Succeeds (detect_out_of_bounds g) HasPositions
  unfolding detect_out_of_bounds
  out_of_bounds-HasPositions g h =
      >>=-Succeeds (λ _. Unit {0}) HasPositions (collect_outside g.bullets g.dead_bullets) _
        (collect_outside-total g.bullets g.dead_bullets h.1)
        (λ bullets _.
          >>=-Succeeds (λ _. Unit {0}) HasPositions (collect_outside g.enemies g.dead_enemies) _
            (collect_outside-total g.enemies g.dead_enemies h.2)
            (λ enemies _.
              >>=-Succeeds (λ _. Unit {0}) HasPositions (collect_outside g.bosses g.dead_bosses) _
                (collect_outside-total g.bosses g.dead_bosses h.3) (λ bosses _. (_, refl, h))))

  -- `checkCollisions` succeeds where every object stands somewhere, and leaves it so.
  pub check_collisions-HasPositions :
      (g : Game) → HasPositions g → Succeeds (check_collisions g) HasPositions
  unfolding check_collisions
  check_collisions-HasPositions g h =
      >>=-HasPositions (detect_bullet_enemy false g) _ (bullet_enemy-HasPositions false g h)
        (λ g₁ h₁.
          >>=-HasPositions (detect_bullet_boss false g₁) _ (bullet_boss-HasPositions false g₁ h₁)
            (λ g₂ h₂.
              >>=-HasPositions (detect_player_enemy (neg (lit 10)) true g₂) _
                (player_enemy-HasPositions (neg (lit 10)) true g₂ h₂)
                (λ g₃ h₃.
                  >>=-HasPositions (detect_player_boss (neg (lit 20)) true g₃) _
                    (player_boss-HasPositions (neg (lit 20)) true g₃ h₃)
                    (λ g₄ h₄.
                      >>=-HasPositions (detect_out_of_bounds g₄) _
                        (out_of_bounds-HasPositions g₄ h₄)
                        (λ g₅ h₅.
                          let g₆ = remove_bullets g₅ in
                          let g₇ = remove_enemies g₆ in
                          (
                            _,
                            refl,
                            remove_bosses-HasPositions (remove_players g₇) (
                                remove_players-HasPositions g₇ (
                                  remove_enemies-HasPositions g₆
                                    (remove_bullets-HasPositions g₅ h₅))),
                          ))))))
