-- ===== src/Game/Standing/Removals.antt =====
-- The removal of the dead, on a game whose objects stand somewhere.
use bee_r_type.Prelude.{ℕ, inl, inr, List, [], ◌∷◌, All, Option-cases}
use bee_r_type.Prelude.Int.{pos, ◌-ℤ◌}
use bee_r_type.Prelude.Map
use bee_r_type.Prelude.Map.{Map}
use bee_r_type.Prelude.Map.Entries.{erase-All}
use bee_r_type.Platform.{Platform}
use bee_r_type.Network.Packet.{
  PacketType, destroy_enemy, destroy_boss, destroy_player, destroy_bullet,
}
use bee_r_type.Entities.{Player}
use bee_r_type.Game.State.{Game}
use bee_r_type.Game.Spawning.{announce_in}
use bee_r_type.Game.Collisions.{
  remove_loop, remove_enemies, remove_bosses, remove_players, remove_bullets,
}
use bee_r_type.Game.Standing.{IsPlaced, HasPositions}

module _ ⦃p : Platform⦄ where
  remove_loop-HasPositions {ℓ} :
      {V : Type ℓ} (P : V → Type 0) (type : PacketType) (also : ℕ → Game → Game)
      (keeps : (id : ℕ) (g : Game) → HasPositions g → HasPositions (also id g)) (ids : List ℕ)
      (m : Map V) (g : Game)
      → All (λ x. P x.1) m
      → HasPositions g
      → let (_, m', g') = remove_loop type also ids m g in All (λ x. P x.1) m' × HasPositions g'
  unfolding remove_loop announce_in
  remove_loop-HasPositions P type also keeps [] m g s h = (s, h)
  remove_loop-HasPositions P type also keeps (id ∷ ids) m g s h =
      elim (Option-cases (Map.find id m)) [
        | inl q ↦ rw (q, remove_loop) (remove_loop-HasPositions P type also keeps ids m g s h)
        | inr (v, q) ↦
            rw (q, remove_loop)
              (remove_loop-HasPositions P type also keeps ids (Map.erase id m) _
                (erase-All (λ x. P x.1) id m s) (keeps id _ h))
      ]

  pub remove_bullets-HasPositions : (g : Game) → HasPositions g → HasPositions (remove_bullets g)
  unfolding remove_bullets
  remove_bullets-HasPositions g h =
      let (s, (players, _, enemies, bosses, ready)) =
        remove_loop-HasPositions IsPlaced destroy_bullet
          (λ id g. record g { bullet_shooters = Map.erase id g.bullet_shooters }) (λ id g k. k)
          g.dead_bullets g.bullets g h.1 h in
      (players, s, enemies, bosses, ready)

  pub remove_enemies-HasPositions : (g : Game) → HasPositions g → HasPositions (remove_enemies g)
  unfolding remove_enemies
  remove_enemies-HasPositions g h =
      let (s, (players, bullets, _, bosses, ready)) =
        remove_loop-HasPositions IsPlaced destroy_enemy (λ id g. g) (λ id g k. k) g.dead_enemies
          g.enemies g h.2 h in
      (players, bullets, s, bosses, ready)

  pub remove_players-HasPositions : (g : Game) → HasPositions g → HasPositions (remove_players g)
  unfolding remove_players
  remove_players-HasPositions g h =
      let (s, (_, bullets, enemies, bosses, ready)) =
        remove_loop-HasPositions (λ (q : Player). IsPlaced q.body) destroy_player
          (λ id g. record g { total_players = g.total_players -ℤ pos 1 }) (λ id g k. k)
          g.dead_players g.players g h.0 h in
      (s, bullets, enemies, bosses, ready)

  pub remove_bosses-HasPositions : (g : Game) → HasPositions g → HasPositions (remove_bosses g)
  unfolding remove_bosses
  remove_bosses-HasPositions g h =
      let (s, (players, bullets, enemies, _, ready)) =
        remove_loop-HasPositions IsPlaced destroy_boss (λ id g. g) (λ id g k. k) g.dead_bosses
          g.bosses g h.3 h in
      (players, bullets, enemies, s, ready)
