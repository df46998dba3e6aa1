-- ===== src/Game/Standing/Rounds.antt =====
-- The start of the players, a round of the game and its end, on a game whose objects stand somewhere.
use bee_r_type.Prelude.{
  Bool, ℕ, zero, suc, ◌+◌, ◌≡◌, refl, ◌∙◌, inl, inr, some, thrown, out_of_range, true, false,
  Option-cases, ==_iff, Succeeds, >>=-Succeeds,
}
use bee_r_type.Prelude.Int.{pos}
use bee_r_type.Prelude.Map
use bee_r_type.Prelude.Map.{Map}
use bee_r_type.Prelude.Map.Entries.{emplace-All, adjust-All}
use bee_r_type.Prelude.Map.Laws.{find-adjust, find-place}
use bee_r_type.Platform.{Platform}
use bee_r_type.Entities.{Player, new_body, new_player, update_hp, update_score}
use bee_r_type.Game.State.{Game}
use bee_r_type.Game.Spawning.{announce_player, announce_in, spawn_player}
use bee_r_type.Game.Loop.{Times, initialize_from, initialize_players, stop, update_ui}
use bee_r_type.Game.Loop.Stages.{
  Stage, acting, moving_bullets, moving_enemies, colliding, spawning, showing, call_stage,
}
use bee_r_type.Game.Standing.{IsPlaced, HasPositions, >>=-HasPositions, new_body-IsPlaced}
use bee_r_type.Game.Standing.Actions.{any_lost, process_player_actions-outcome}
use bee_r_type.Game.Standing.Waves.{
  update_bullets-HasPositions, update_enemies-HasPositions, wave_system-HasPositions,
  update_ui-HasPositions,
}
use bee_r_type.Game.Standing.Collisions.{check_collisions-HasPositions}

-- After `emplace` the key is there.
emplaced {ℓ} :
    {V : Type ℓ} (k : ℕ) (v : V) (m : Map V) → (w : V) × (Map.find k (Map.emplace k v m) ≡ some w)
unfolding Map.emplace
emplaced k v m = elim (Option-cases (Map.find k m)) [
  | inl q ↦ (v, rw (q, Map.emplace) (find-place k k v m q ∙ rw ((==_iff k k).1 refl)))
  | inr (w, q) ↦ (w, rw (q, Map.emplace) q)
]

module _ ⦃p : Platform⦄ where
  open p use {Real, lit, add, mul}

  new_player-IsPlaced :
      (x y : Real) (g : Game)
      → HasPositions g
      → Succeeds (new_player g.registry x y) (λ q. IsPlaced q.body)
  unfolding new_player
  new_player-IsPlaced x y g h =
      >>=-Succeeds IsPlaced (λ q. IsPlaced q.body) (new_body g.registry (record { x = x; y = y })) _
        (new_body-IsPlaced g.registry _ h.4) (λ b s. (_, refl, s))

  spawn_player-HasPositions :
      (id : ℕ) (x y : Real) (g : Game)
      → HasPositions g
      → Succeeds (spawn_player id x y g) HasPositions
  unfolding spawn_player announce_player announce_in update_hp update_score
  spawn_player-HasPositions id x y g h =
      let (players, bullets, enemies, bosses, ready) = h in
      let ready' = λ (q : Player). update_score (lit 0) (update_hp (lit 100) q) in
      >>=-Succeeds (λ q. IsPlaced q.body) HasPositions (new_player g.registry x y) _
        (new_player-IsPlaced x y g h)
        (λ fresh s.
          let all =
            adjust-All (λ q. IsPlaced q.body) id ready' (Map.emplace id fresh g.players) (λ q t. t)
              (emplace-All (λ e. IsPlaced e.1.body) id fresh g.players s players) in
          let (q, there) = emplaced id fresh g.players in
          let found : Map.find id (Map.adjust id ready' (Map.emplace id fresh g.players))
              ≡ some (ready' q) =
            find-adjust id id ready' (Map.emplace id fresh g.players)
            ∙ rw ((==_iff id id).1 refl, there) in
          rw found (_, refl, (all, bullets, enemies, bosses, ready)))

  initialize_from-HasPositions :
      (left i : ℕ) (g : Game) → HasPositions g → Succeeds (initialize_from left i g) HasPositions
  unfolding initialize_from
  initialize_from-HasPositions zero i g h = (g, refl, h)
  initialize_from-HasPositions (suc left) i g h =
      >>=-HasPositions (spawn_player i (mul (lit 100) (add (lit i) (lit 1))) (lit 100) g) _
        (spawn_player-HasPositions i _ _ g h) (initialize_from-HasPositions left (i + 1))

  pub initialize_players-HasPositions :
      (n : ℕ) (g : Game) → HasPositions g → Succeeds (initialize_players n g) HasPositions
  unfolding initialize_players
  initialize_players-HasPositions n g h =
      initialize_from-HasPositions n 0 (record g { total_players = pos n }) h

  pub stop-HasPositions : (g : Game) → HasPositions g → HasPositions (stop g)
  unfolding stop
  stop-HasPositions g h = (tt, tt, tt, tt, h.4)

  -- Whether a call is that of the actions, and one of them moves a player that is gone.
  unfoldable pub is_lost_at : Stage → Game → Bool
  unfolding any_lost
  is_lost_at acting g = any_lost g.players g.player_actions
  is_lost_at _ g = false

  -- A call of a round throws exactly if one of the actions moves a player that is gone.
  pub call_stage-outcome :
      (k : Stage) (t : Times) (g : Game)
      → HasPositions g
      → (is_lost_at k g ≡ true → call_stage k t g ≡ thrown out_of_range)
        × (is_lost_at k g ≡ false → Succeeds (call_stage k t g) HasPositions)
  unfolding call_stage is_lost_at
  call_stage-outcome acting t g h = process_player_actions-outcome g h
  call_stage-outcome moving_bullets t g h =
      (λ e. cc, λ _. update_bullets-HasPositions t.bullets g h)
  call_stage-outcome moving_enemies t g h =
      (λ e. cc, λ _. update_enemies-HasPositions t.enemies g h)
  call_stage-outcome colliding t g h = (λ e. cc, λ _. check_collisions-HasPositions g h)
  call_stage-outcome spawning t g h = (λ e. cc, λ _. wave_system-HasPositions t.wave g h)
  call_stage-outcome showing t g h =
      (λ e. cc, λ _. (update_ui t.ui g, refl, update_ui-HasPositions t.ui g h))
