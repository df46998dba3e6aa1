-- ===== src/Game/Collisions.antt =====
-- Collisions, the entities that leave the screen, and the removal of the dead: R-Type/src/Game.cpp.
-- The lists of identifiers to kill that the functions are given are always the game's own.
pub mod Hits
pub mod Checking
pub mod Detections
pub mod Keys
pub mod Removal
unfoldable pub use Hits.*
use bee_r_type.Prelude.{
  ℕ, ◌+◌, Bool, true, false, ◌&&◌, ◌||◌, Option, none, some, List, [], ◌∷◌, ◌++◌, ◌==◌,
  if◌then◌else◌, map, Result, ok, ◌>>=◌,
}
use bee_r_type.Prelude.Map
use bee_r_type.Prelude.Map.{Map}
use bee_r_type.Prelude.Int.{ℤ, pos, ◌-ℤ◌}
use bee_r_type.Platform.{Platform}
use bee_r_type.Ecs.Components.{Position}
use bee_r_type.Network.Packet.{
  PacketType, destroy_bullet, destroy_enemy, destroy_player, destroy_boss,
}
use bee_r_type.Entities.{Body, Player, Enemy, Boss, Bullet, update_hp, update_score, position_of}
use bee_r_type.Game.State.{Game, destroy_data}
use bee_r_type.Game.Spawning.{announce_in}
use bee_r_type.Game.Movement.{player_at}

module _ ⦃p : Platform⦄ where
  open p use {Real, lit, neg, add, sub, lt, le, square, sqrt}

  -- The loops of `detectCollisions`: over the second map for one entity of the first, and over the
  -- first. `check` is the overload of `checkCollision`, and `hit` what follows it. Neither loop changes
  -- the position of an entity or the keys of a map.
  unfoldable pub detect_row {ℓ κ} :
      {A : Type ℓ} {B : Type κ} (check : A → B → Real → Result Bool) (hit : ℕ → ℕ → Game → Game)
      (id : ℕ) (a : A)
      → Map B
      → Game
      → Result Game
  detect_row check hit id a [] g = ok g
  detect_row check hit id a ((j, b) ∷ bs) g =
      check a b (lit 10) >>= λ c. detect_row check hit id a bs (if c then hit id j g else g)

  unfoldable pub detect_all {ℓ κ} :
      {A : Type ℓ} {B : Type κ} (check : A → B → Real → Result Bool) (hit : ℕ → ℕ → Game → Game)
      → Map A
      → Map B
      → Game
      → Result Game
  unfolding detect_row
  detect_all check hit [] bs g = ok g
  detect_all check hit ((id, a) ∷ more) bs g =
      detect_row check hit id a bs g >>= detect_all check hit more bs

  unfoldable pub detect_bullet_enemy : Bool → Game → Result Game
  unfolding detect_all check_bullet_enemy handle_enemy_death handle_bullet_death
  detect_bullet_enemy check_hp g =
      detect_all check_bullet_enemy
        (λ a b g. handle_enemy_death b check_hp (handle_bullet_death a g)) g.bullets g.enemies g

  unfoldable pub detect_bullet_boss : Bool → Game → Result Game
  unfolding detect_all check_bullet_boss handle_boss_death handle_bullet_death
  detect_bullet_boss check_hp g =
      detect_all check_bullet_boss (λ a b g. handle_boss_death b check_hp (handle_bullet_death a g))
        g.bullets g.bosses g

  unfoldable pub detect_player_enemy : Real → Bool → Game → Result Game
  unfolding detect_all check_player_enemy handle_enemy_death handle_player_death
  detect_player_enemy damage check_hp g =
      detect_all check_player_enemy
        (λ a b g. handle_enemy_death b check_hp (handle_player_death a damage check_hp g)) g.players
        g.enemies g

  unfoldable pub detect_player_boss : Real → Bool → Game → Result Game
  unfolding detect_all check_player_boss handle_boss_death handle_player_death
  detect_player_boss damage check_hp g =
      detect_all check_player_boss
        (λ a b g. handle_boss_death b check_hp (handle_player_death a damage check_hp g)) g.players
        g.bosses g

  -- `x < -50 || x > 1280 || y < -50 || y > 720`.
  unfoldable pub is_outside : Position → Bool
  is_outside at =
      lt at.x (neg (lit 50)) || lt (lit 1280) at.x || lt at.y (neg (lit 50)) || lt (lit 720) at.y

  unfoldable pub collect_outside : Map Body → List ℕ → Result (List ℕ)
  unfolding position_of is_outside
  collect_outside [] dead = ok dead
  collect_outside ((id, b) ∷ m) dead =
      position_of b >>= λ at. collect_outside m (if is_outside at then dead ++ id ∷ [] else dead)

  -- Players are not looked at.
  unfoldable pub detect_out_of_bounds : Game → Result Game
  unfolding collect_outside
  detect_out_of_bounds g = do
    bullets ← collect_outside g.bullets g.dead_bullets
    enemies ← collect_outside g.enemies g.dead_enemies
    bosses ← collect_outside g.bosses g.dead_bosses
    ok (record g { dead_bullets = bullets; dead_enemies = enemies; dead_bosses = bosses })

  -- The loop of the four overloads of `removeEntities`: the identifiers that it leaves in the list, the
  -- entities that stay, and the game, on which `also` does what an overload does besides.
  unfoldable pub remove_loop {ℓ} :
      {V : Type ℓ} → PacketType → (ℕ → Game → Game) → List ℕ → Map V → Game → List ℕ × Map V × Game
  unfolding Map.find Map.erase announce_in
  remove_loop type also [] m g = ([], m, g)
  remove_loop type also (id ∷ ids) m g = elim (Map.find id m) [
    | none ↦ let (left, m', g') = remove_loop type also ids m g in (id ∷ left, m', g')
    | some v ↦
        remove_loop type also ids (Map.erase id m) (also id (announce_in type (destroy_data id) g))
  ]

  unfoldable pub remove_enemies : Game → Game
  remove_enemies g =
      let (left, m, g') = remove_loop destroy_enemy (λ id g. g) g.dead_enemies g.enemies g in
      record g' { dead_enemies = left; enemies = m }

  unfoldable pub remove_bosses : Game → Game
  remove_bosses g =
      let (left, m, g') = remove_loop destroy_boss (λ id g. g) g.dead_bosses g.bosses g in
      record g' { dead_bosses = left; bosses = m }

  unfoldable pub remove_players : Game → Game
  remove_players g =
      let (left, m, g') =
        remove_loop destroy_player (λ id g. record g { total_players = g.total_players -ℤ pos 1 })
          g.dead_players g.players g in
      record g' { dead_players = left; players = m }

  unfoldable pub remove_bullets : Game → Game
  remove_bullets g =
      let (left, m, g') =
        remove_loop destroy_bullet
          (λ id g. record g { bullet_shooters = Map.erase id g.bullet_shooters }) g.dead_bullets
          g.bullets g in
      record g' { dead_bullets = left; bullets = m }

  unfoldable pub check_collisions : Game → Result Game
  unfolding detect_bullet_enemy detect_bullet_boss detect_player_enemy detect_player_boss
      detect_out_of_bounds remove_bullets remove_enemies remove_players remove_bosses
  check_collisions g = do
    g₁ ← detect_bullet_enemy false g
    g₂ ← detect_bullet_boss false g₁
    g₃ ← detect_player_enemy (neg (lit 10)) true g₂
    g₄ ← detect_player_boss (neg (lit 20)) true g₃
    g₅ ← detect_out_of_bounds g₄
    ok (remove_bosses (remove_players (remove_enemies (remove_bullets g₅))))

  -- `handleBulletPlayerCollision`, which nothing calls: the game, and the list that it pushes to.
  unfoldable pub handle_bullet_player_collision : ℕ → ℕ → List ℕ → Game → Game × List ℕ
  unfolding update_score Map.find Map.assign Map.place Map.adjust
  handle_bullet_player_collision id_a id_b kills g =
      let shooter : ℕ = elim (Map.find id_a g.bullet_shooters) [ none ↦ 0 | some s ↦ s ] in
      (
        record g {
          bullet_shooters = Map.assign id_a shooter g.bullet_shooters;
          players =
              Map.assign shooter (update_score (lit 100) (player_at shooter g.players)) g.players;
        },
        kills ++ id_b ∷ [],
      )

  -- `checkAlivePlayers`, which nothing calls.
  unfoldable pub check_alive_players : List ℕ → Player → ℕ → List ℕ
  check_alive_players dead q id = if le q.hp (lit 0) then dead ++ id ∷ [] else dead
