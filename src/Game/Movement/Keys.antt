-- ===== src/Game/Movement/Keys.antt =====
-- The keys of the maps of entities through a move of a player.
use bee_r_type.Prelude.{
  ℕ, zero, suc, ◌+◌, ◌≡◌, refl, subst, inl, inr, Bool, true, false, some, if◌then◌else◌, ok, thrown,
  Exception, out_of_range, runtime_error, invalid_argument, undefined, >>=-ok, ok-injective, codes,
  Option-cases, length, Result-cases,
}
use bee_r_type.Prelude.Map
use bee_r_type.Prelude.Map.{Map, keys}
use bee_r_type.Prelude.Map.Laws.{keys-adjust}
use bee_r_type.Platform.{Platform}
use bee_r_type.Ecs.Components.{Position}
use bee_r_type.Entities.{Player, move_player}
use bee_r_type.Server.News.{still-IsNews}
use bee_r_type.Server.Telling.{Tells-refl}
use bee_r_type.Game.State.{Game, entity_data}
use bee_r_type.Game.Keys.{SameKeys, SameKeys-refl, SameKeys-trans}
use bee_r_type.Game.Collisions.Detections.{announce_in-SameKeys}
use bee_r_type.Network.Packet.{change}
use bee_r_type.Game.Spawning.{announce_in}
use bee_r_type.Game.Movement.{
  get_player_position, announce_change, has_position_changed, or_out_of_range, announce_if_changed,
  announce_players, player_packet_factory, handle_player_move, player_at,
}

module _ ⦃p : Platform⦄ where
  open p use {sub, print_real}

  known-SameKeys :
      (known : Map Position) (g : Game) → SameKeys g (record g { last_known_positions = known })
  known-SameKeys known g = record {
    players = refl;
    bullets = refl;
    enemies = refl;
    bosses = refl;
    counted = refl;
    told = Tells-refl _;
    registry = refl;
  }

  announce_change-SameKeys :
      (id : ℕ) (at : Position) (g : Game) → SameKeys g (announce_change id at g)
  unfolding announce_change
  announce_change-SameKeys id at g =
      let (changed, known) = has_position_changed id at g.last_known_positions in
      let g' = record g { last_known_positions = known } in
      let data' = entity_data id (print_real at.x) (print_real at.y) (codes ";0;0") in
      told changed g' (announce_in change data' g') (known-SameKeys known g)
        (announce_in-SameKeys change data' g' (still-IsNews id at.x at.y))
    where
      told :
          (b : Bool) (m m' : Game) → SameKeys g m → SameKeys m m' → SameKeys g (if b then m' else m)
      told true m m' s t = SameKeys-trans s t
      told false m m' s t = s

  announce_if_changed-SameKeys :
      (id : ℕ) (g g' : Game) → announce_if_changed id g ≡ ok g' → SameKeys g g'
  unfolding announce_if_changed
  announce_if_changed-SameKeys id g g' h = elim (Result-cases (get_player_position id g)) [
    | inl (e, q) ↦ caught e (rw q at h)
    | inr (at, q) ↦ subst (SameKeys g) (ok-injective (rw q at h)) (announce_change-SameKeys id at g)
  ]
    where
      caught : (e : Exception) → or_out_of_range g (thrown e) ≡ ok g' → SameKeys g g'
      caught out_of_range h = subst (SameKeys g) (ok-injective h) (SameKeys-refl g)
      caught runtime_error h = cc
      caught invalid_argument h = cc
      caught undefined h = cc

  announce_players-SameKeys :
      (left id : ℕ) (g g' : Game) → announce_players left id g ≡ ok g' → SameKeys g g'
  unfolding announce_players
  announce_players-SameKeys zero id g g' h = subst (SameKeys g) (ok-injective h) (SameKeys-refl g)
  announce_players-SameKeys (suc left) id g g' h =
      let (m, first, rest) = >>=-ok (announce_if_changed id g) _ h in
      SameKeys-trans (announce_if_changed-SameKeys id g m first)
        (announce_players-SameKeys left (id + 1) m g' rest)

  -- Only a player that is there moves.
  keys-assign_there :
      (id : ℕ) (q r : Player) (m : Map Player)
      → Map.find id m ≡ some r
      → keys (Map.assign id q m) ≡ keys m
  unfolding Map.assign
  keys-assign_there id q r m h = rw (h, Map.assign) (keys-adjust id (λ _. q) m)

  there :
      (id : ℕ) (at : Position) (g : Game)
      → get_player_position id g ≡ ok at
      → (r : Player) × (Map.find id g.players ≡ some r)
  unfolding get_player_position
  there id at g h = elim (Option-cases (Map.find id g.players)) [
    | inl q ↦ absurd (thrown_ok (rw (q, get_player_position) at h))
    | inr (r, q) ↦ (r, q)
  ]
    where
      thrown_ok : {e : Exception} → thrown e ≡ ok at → ⊥
      thrown_ok e = cc

  pub handle_player_move-SameKeys :
      (id action : ℕ) (g g' : Game) → handle_player_move id action g ≡ ok g' → SameKeys g g'
  unfolding handle_player_move player_packet_factory
  handle_player_move-SameKeys id action g g' h =
      let (current, at, h₁) = >>=-ok (get_player_position id g) _ h in
      let (q, moved, h₂) = >>=-ok (move_player _ _ (player_at id g.players)) _ h₁ in
      let (r, is_there) = there id current g at in
      let m = record g { players = Map.assign id q g.players } in
      SameKeys-trans
        (record {
          players = keys-assign_there id q r g.players is_there;
          bullets = refl;
          enemies = refl;
          bosses = refl;
          counted = refl;
          told = Tells-refl _;
          registry = refl;
        })
        (announce_players-SameKeys (length m.players) 0 m g' h₂)
