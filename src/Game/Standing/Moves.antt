-- ===== src/Game/Standing/Moves.antt =====
-- The moves of a player and the shots, on a game whose objects stand somewhere.
use bee_r_type.Prelude.{
  ℕ, zero, suc, ◌+◌, ◌≡◌, refl, inl, inr, none, some, if_both, Option-cases, length, thrown,
  out_of_range, Succeeds, >>=-Succeeds,
}
use bee_r_type.Prelude.Map
use bee_r_type.Prelude.Map.{Map, keys}
use bee_r_type.Prelude.Map.Entries.{find-All, assign-All, emplace-All}
use bee_r_type.Platform.{Platform}
use bee_r_type.Ecs.Components.{Position}
use bee_r_type.Entities.{Player, move_player, new_bullet, position_of}
use bee_r_type.Entities.Moving.{standing-has_component}
use bee_r_type.Game.State.{Game}
use bee_r_type.Game.Spawning.{announce_in, shoot_from, spawn_bullet}
use bee_r_type.Game.Movement.{
  get_player_position, announce_change, has_position_changed, announce_if_changed, announce_players,
  player_packet_factory, handle_player_move, player_at,
}
use bee_r_type.Game.Movement.Keys.{handle_player_move-SameKeys}
use bee_r_type.Game.Standing.{
  IsPlaced, HasPositions, >>=-HasPositions, position_of-total, move_player-IsPlaced,
  new_body-IsPlaced,
}

module _ ⦃p : Platform⦄ where
  open p use {Real, lit, add, sub, print_real}

  -- The map has no entry, so `at` throws.
  missing_position :
      (id : ℕ) (g : Game)
      → Map.find id g.players ≡ none
      → get_player_position id g ≡ thrown out_of_range
  unfolding get_player_position
  missing_position id g q = rw (q, get_player_position)

  player_position-total :
      (id : ℕ) (g : Game) (q : Player)
      → HasPositions g
      → Map.find id g.players ≡ some q
      → Succeeds (get_player_position id g) (λ _. Unit {0})
  unfolding get_player_position
  player_position-total id g q h e =
      rw (e, get_player_position)
        (position_of-total q.body (find-All (λ r. IsPlaced r.body) id g.players h.0 e))

  announce_change-HasPositions :
      (id : ℕ) (at : Position) (g : Game) → HasPositions g → HasPositions (announce_change id at g)
  unfolding announce_change announce_in
  announce_change-HasPositions id at g h =
      if_both HasPositions (has_position_changed id at g.last_known_positions).0 h h

  announce_if_changed-HasPositions :
      (id : ℕ) (g : Game) → HasPositions g → Succeeds (announce_if_changed id g) HasPositions
  unfolding announce_if_changed
  announce_if_changed-HasPositions id g h = elim (Option-cases (Map.find id g.players)) [
    | inl q ↦ (g, rw (missing_position id g q, announce_if_changed), h)
    | inr (q, e) ↦
        let (at, returns, _) = player_position-total id g q h e in
        (
          announce_change id at g,
          rw (returns, announce_if_changed),
          announce_change-HasPositions id at g h,
        )
  ]

  announce_players-HasPositions :
      (left id : ℕ) (g : Game) → HasPositions g → Succeeds (announce_players left id g) HasPositions
  unfolding announce_players
  announce_players-HasPositions zero id g h = (g, refl, h)
  announce_players-HasPositions (suc left) id g h =
      >>=-HasPositions (announce_if_changed id g) _ (announce_if_changed-HasPositions id g h)
        (announce_players-HasPositions left (id + 1))

  pub handle_player_move_gone :
      (id action : ℕ) (g : Game)
      → Map.find id g.players ≡ none
      → handle_player_move id action g ≡ thrown out_of_range
  unfolding handle_player_move
  handle_player_move_gone id action g q = rw (missing_position id g q, handle_player_move)

  handle_player_move-Succeeds :
      (id action : ℕ) (g : Game) (q : Player)
      → HasPositions g
      → Map.find id g.players ≡ some q
      → Succeeds (handle_player_move id action g) HasPositions
  unfolding handle_player_move player_packet_factory
  handle_player_move-Succeeds id action g q h e =
      let (players, bullets, enemies, bosses, ready) = h in
      let (at, returns, _) = player_position-total id g q h e in
      let placed : IsPlaced (player_at id g.players).body =
        rw (player_at, e) (find-All (λ r. IsPlaced r.body) id g.players players e) in
      >>=-Succeeds (λ _. Unit {0}) HasPositions (get_player_position id g) _ (at, returns, tt)
        (λ current _.
          >>=-Succeeds (λ r. IsPlaced r.body) HasPositions
            (move_player _ _ (player_at id g.players)) _
            (move_player-IsPlaced _ _ (player_at id g.players) placed)
            (λ r s.
              announce_players-HasPositions (length (Map.assign id r g.players)) 0
                (record g { players = Map.assign id r g.players })
                (
                  assign-All (λ x. IsPlaced x.body) id r g.players s players,
                  bullets,
                  enemies,
                  bosses,
                  ready,
                )))

  -- A game whose objects stand somewhere and whose players have the identifiers that those of another had.
  abbrev pub Keeps : Game → Game → Type 0
  Keeps g g' = HasPositions g' × (keys g'.players ≡ keys g.players)

  pub handle_player_move-HasPositions :
      (id action : ℕ) (g : Game) (q : Player)
      → HasPositions g
      → Map.find id g.players ≡ some q
      → Succeeds (handle_player_move id action g) (Keeps g)
  handle_player_move-HasPositions id action g q h e =
      let (g', returns, h') = handle_player_move-Succeeds id action g q h e in
      let same = handle_player_move-SameKeys id action g g' returns in
      (g', returns, (h', same.players))

  shoot_from-HasPositions :
      (shooter : ℕ) (x y : Real) (g : Game)
      → HasPositions g
      → Succeeds (shoot_from shooter x y g) (Keeps g)
  unfolding shoot_from announce_in new_bullet
  shoot_from-HasPositions shooter x y g (players, bullets, enemies, bosses, ready) =
      >>=-Succeeds IsPlaced (Keeps g) (new_bullet g.registry g.next_bullet_id x y (lit 1)) _
        (new_body-IsPlaced g.registry (record { x = x; y = y }) ready)
        (λ b s. (
          _,
          refl,
          (
            (
              players,
              emplace-All (λ x. IsPlaced x.1) g.next_bullet_id b g.bullets s bullets,
              enemies,
              bosses,
              ready,
            ),
            refl,
          ),
        ))

  pub spawn_bullet-HasPositions :
      (shooter : ℕ) (g : Game) → HasPositions g → Succeeds (spawn_bullet shooter g) (Keeps g)
  unfolding spawn_bullet
  spawn_bullet-HasPositions shooter g h = elim (Option-cases (Map.find shooter g.players)) [
    | inl q ↦ (g, rw (q, spawn_bullet), (h, refl))
    | inr (q, e) ↦
        let (at, s) = find-All (λ r. IsPlaced r.body) shooter g.players h.0 e in
        rw (e, spawn_bullet, standing-has_component at q.body s)
          (>>=-Succeeds (λ _. Unit {0}) (Keeps g) (position_of q.body) _
            (position_of-total q.body (at, s)) (λ at _. shoot_from-HasPositions shooter _ _ g h))
  ]
