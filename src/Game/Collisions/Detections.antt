-- ===== src/Game/Collisions/Detections.antt =====
-- The detection of collisions leaves the keys of the maps of entities alone.
use bee_r_type.Prelude.{
  ℕ, ◌≡◌, refl, ap, subst, Bool, true, false, [], ◌∷◌, ◌++◌, if◌then◌else◌, Result, ok, >>=-ok,
  ok-injective,
}
use bee_r_type.Prelude.Map
use bee_r_type.Prelude.Map.{Map, keys}
use bee_r_type.Prelude.Map.Laws.{keys-adjust}
use bee_r_type.Prelude.Decimal.{Bytes}
use bee_r_type.Platform.{Platform}
use bee_r_type.Network.Packet.{PacketType}
use bee_r_type.Entities.{Player, update_hp}
use bee_r_type.Server.News.{IsNews}
use bee_r_type.Server.Telling.{Tells-refl, Tells-announce}
use bee_r_type.Game.State.{Game}
use bee_r_type.Game.Keys.{SameKeys, SameKeys-refl, SameKeys-trans}
use bee_r_type.Game.Spawning.{announce_in}
use bee_r_type.Game.Movement.{player_at}
use bee_r_type.Game.Collisions.{
  handle_player_death, handle_bullet_death, reward_players, handle_enemy_death, handle_boss_death,
  detect_row, detect_all, check_bullet_enemy, check_bullet_boss, check_player_enemy,
  check_player_boss, detect_bullet_enemy, detect_bullet_boss, detect_player_enemy,
  detect_player_boss, detect_out_of_bounds, collect_outside,
}

module _ ⦃p : Platform⦄ where
  open p use {Real, lit, le, neg}

  keys-reward_players : (amount : Real) (m : Map Player) → keys (reward_players amount m) ≡ keys m
  unfolding reward_players
  keys-reward_players amount [] = refl
  keys-reward_players amount ((id, q) ∷ m) = ap (λ l. id ∷ l) (keys-reward_players amount m)

  detect_row-SameKeys {ℓ κ} :
      {A : Type ℓ} {B : Type κ} (check : A → B → Real → Result Bool) (hit : ℕ → ℕ → Game → Game)
      (same : (i j : ℕ) (g : Game) → SameKeys g (hit i j g)) (id : ℕ) (a : A) (bs : Map B)
      (g g' : Game)
      → detect_row check hit id a bs g ≡ ok g'
      → SameKeys g g'
  unfolding detect_row
  detect_row-SameKeys check hit same id a [] g g' h =
      subst (SameKeys g) (ok-injective h) (SameKeys-refl g)
  detect_row-SameKeys check hit same id a ((j, b) ∷ bs) g g' h =
      let (c, _, rest) = >>=-ok (check a b (lit 10)) _ h in
      let after = if c then hit id j g else g in
      SameKeys-trans (either c g (hit id j g) (same id j g))
        (detect_row-SameKeys check hit same id a bs after g' rest)
    where
      either : (c : Bool) (g m : Game) → SameKeys g m → SameKeys g (if c then m else g)
      either true g m s = s
      either false g m s = SameKeys-refl g

  detect_all-SameKeys {ℓ κ} :
      {A : Type ℓ} {B : Type κ} (check : A → B → Real → Result Bool) (hit : ℕ → ℕ → Game → Game)
      (same : (i j : ℕ) (g : Game) → SameKeys g (hit i j g)) (as' : Map A) (bs : Map B)
      (g g' : Game)
      → detect_all check hit as' bs g ≡ ok g'
      → SameKeys g g'
  unfolding detect_all
  detect_all-SameKeys check hit same [] bs g g' h =
      subst (SameKeys g) (ok-injective h) (SameKeys-refl g)
  detect_all-SameKeys check hit same ((id, a) ∷ more) bs g g' h =
      let (m, row, rest) = >>=-ok (detect_row check hit id a bs g) _ h in
      SameKeys-trans (detect_row-SameKeys check hit same id a bs g m row)
        (detect_all-SameKeys check hit same more bs m g' rest)

  enemy_death-SameKeys : (id : ℕ) (b : Bool) (g : Game) → SameKeys g (handle_enemy_death id b g)
  unfolding handle_enemy_death
  enemy_death-SameKeys id true g = record {
    players = keys-reward_players (lit 5) g.players;
    bullets = refl;
    enemies = refl;
    bosses = refl;
    counted = refl;
    told = Tells-refl _;
    registry = refl;
  }
  enemy_death-SameKeys id false g = record {
    players = keys-reward_players (lit 5) g.players;
    bullets = refl;
    enemies = refl;
    bosses = refl;
    counted = refl;
    told = Tells-refl _;
    registry = refl;
  }

  boss_death-SameKeys : (id : ℕ) (b : Bool) (g : Game) → SameKeys g (handle_boss_death id b g)
  unfolding handle_boss_death
  boss_death-SameKeys id true g = record {
    players = keys-reward_players (lit 20) g.players;
    bullets = refl;
    enemies = refl;
    bosses = refl;
    counted = refl;
    told = Tells-refl _;
    registry = refl;
  }
  boss_death-SameKeys id false g = record {
    players = keys-reward_players (lit 20) g.players;
    bullets = refl;
    enemies = refl;
    bosses = refl;
    counted = refl;
    told = Tells-refl _;
    registry = refl;
  }

  bullet_death-SameKeys : (id : ℕ) (g : Game) → SameKeys g (handle_bullet_death id g)
  unfolding handle_bullet_death
  bullet_death-SameKeys id g = record {
    players = refl;
    bullets = refl;
    enemies = refl;
    bosses = refl;
    counted = refl;
    told = Tells-refl _;
    registry = refl;
  }

  player_death-SameKeys :
      (id : ℕ) (damage : Real) (g : Game) → SameKeys g (handle_player_death id damage true g)
  unfolding handle_player_death
  player_death-SameKeys id damage g =
      let players = Map.adjust id (update_hp damage) g.players in
      let dies = le (player_at id players).hp (lit 0) in
      chosen dies (keys-adjust id (update_hp damage) g.players)
    where
      chosen :
          (dies : Bool)
          → keys (Map.adjust id (update_hp damage) g.players) ≡ keys g.players
          → SameKeys g (
              if dies
              then record g {
                players = Map.adjust id (update_hp damage) g.players;
                dead_players = g.dead_players ++ id ∷ [];
              }
              else record g { players = Map.adjust id (update_hp damage) g.players })
      chosen true e = record {
        players = e;
        bullets = refl;
        enemies = refl;
        bosses = refl;
        counted = refl;
        told = Tells-refl _;
        registry = refl;
      }
      chosen false e = record {
        players = e;
        bullets = refl;
        enemies = refl;
        bosses = refl;
        counted = refl;
        told = Tells-refl _;
        registry = refl;
      }

  pub announce_in-SameKeys :
      (type : PacketType) (data' : Bytes) (g : Game)
      → IsNews data'
      → SameKeys g (announce_in type data' g)
  unfolding announce_in
  announce_in-SameKeys type data' g news = record {
    players = refl;
    bullets = refl;
    enemies = refl;
    bosses = refl;
    counted = refl;
    told = Tells-announce type data' g.server news;
    registry = refl;
  }

  pub bounds-SameKeys : (g g' : Game) → detect_out_of_bounds g ≡ ok g' → SameKeys g g'
  unfolding detect_out_of_bounds
  bounds-SameKeys g g' h =
      let (bullets, _, h₁) = >>=-ok (collect_outside g.bullets g.dead_bullets) _ h in
      let (enemies, _, h₂) = >>=-ok (collect_outside g.enemies g.dead_enemies) _ h₁ in
      let (bosses, _, h₃) = >>=-ok (collect_outside g.bosses g.dead_bosses) _ h₂ in
      subst (SameKeys g) (ok-injective h₃) (record {
        players = refl;
        bullets = refl;
        enemies = refl;
        bosses = refl;
        counted = refl;
        told = Tells-refl _;
        registry = refl;
      })

  pub detections-SameKeys :
      (g g₁ g₂ g₃ g₄ : Game)
      → detect_bullet_enemy false g ≡ ok g₁
      → detect_bullet_boss false g₁ ≡ ok g₂
      → detect_player_enemy (neg (lit 10)) true g₂ ≡ ok g₃
      → detect_player_boss (neg (lit 20)) true g₃ ≡ ok g₄
      → SameKeys g g₄
  unfolding detect_bullet_enemy detect_bullet_boss detect_player_enemy detect_player_boss
  detections-SameKeys g g₁ g₂ g₃ g₄ h₁ h₂ h₃ h₄ =
      let by_bullet = λ (i : ℕ) (g : Game). bullet_death-SameKeys i g in
      let s₁ =
        detect_all-SameKeys check_bullet_enemy _
          (λ i j g.
            SameKeys-trans (by_bullet i g) (enemy_death-SameKeys j false (handle_bullet_death i g)))
          g.bullets g.enemies g g₁ h₁ in
      let s₂ =
        detect_all-SameKeys check_bullet_boss _
          (λ i j g.
            SameKeys-trans (by_bullet i g) (boss_death-SameKeys j false (handle_bullet_death i g)))
          g₁.bullets g₁.bosses g₁ g₂ h₂ in
      let s₃ =
        detect_all-SameKeys check_player_enemy _
          (λ i j g.
            SameKeys-trans (player_death-SameKeys i (neg (lit 10)) g)
              (enemy_death-SameKeys j true (handle_player_death i (neg (lit 10)) true g)))
          g₂.players g₂.enemies g₂ g₃ h₃ in
      let s₄ =
        detect_all-SameKeys check_player_boss _
          (λ i j g.
            SameKeys-trans (player_death-SameKeys i (neg (lit 20)) g)
              (boss_death-SameKeys j true (handle_player_death i (neg (lit 20)) true g)))
          g₃.players g₃.bosses g₃ g₄ h₄ in
      SameKeys-trans s₁ (SameKeys-trans s₂ (SameKeys-trans s₃ s₄))
