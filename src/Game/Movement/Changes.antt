-- ===== src/Game/Movement/Changes.antt =====
-- When a move is told to the clients: `hasPositionChanged` and `playerPacketFactory`.
use native.Mathlib.Omega.{arith}
use bee_r_type.Prelude.{
  ℕ, zero, suc, ◌+◌, ◌≤◌, ◌<◌, ◌≡◌, refl, sym, subst, ◌∙◌, ap, ◌≢◌, inl, inr, true, false, none,
  some, [], ◌∷◌, ◌==◌, ==_iff, Bool-cases, Option-cases, length, Result, ok, thrown, >>=-ok,
  ok-injective, out_of_range, runtime_error, invalid_argument, undefined, Exception,
}
use bee_r_type.Prelude.Map
use bee_r_type.Prelude.Map.{Map, find}
use bee_r_type.Prelude.Map.Laws.{find-assign}
use bee_r_type.Platform.{Platform}
use bee_r_type.Ecs.Components.{Position}
use bee_r_type.Entities.{Player, move_player}
use bee_r_type.Game.State.{Game}
use bee_r_type.Game.Spawning.{announce_in}
use bee_r_type.Game.Movement.{
  same_position, has_position_changed, get_player_position, announce_change, announce_if_changed,
  announce_players, player_packet_factory, handle_player_move,
}

thrown_ok {ℓ} : {A : Type ℓ} {e : Exception} {a : A} → thrown e ≡ ok a → ⊥
thrown_ok h = cc

assign_single {ℓ} : {V : Type ℓ} (id : ℕ) (v w : V) → Map.assign id w ((id, v) ∷ []) ≡ (id, w) ∷ []
unfolding Map.assign find Map.adjust
assign_single id v w = let self = (==_iff id id).1 refl in rw (self, Map.assign, self)

find_single {ℓ} : {V : Type ℓ} (id : ℕ) (v : V) → 0 < id → find 0 ((id, v) ∷ []) ≡ none
unfolding find
find_single id v h = let later : (id == 0) ≡ false = ground arith in rw later

module _ ⦃p : Platform⦄ where
  unchanged :
      (id : ℕ) (at old : Position) (known : Map Position)
      → find id known ≡ some old
      → same_position old at ≡ true
      → has_position_changed id at known ≡ (false, known)
  unfolding has_position_changed
  unchanged id at old known q h = rw (q, has_position_changed, h)

  changed_missing :
      (id : ℕ) (at : Position) (known : Map Position)
      → find id known ≡ none
      → has_position_changed id at known ≡ (true, Map.assign id at known)
  unfolding has_position_changed
  changed_missing id at known q = rw (q, has_position_changed)

  changed_other :
      (id : ℕ) (at old : Position) (known : Map Position)
      → find id known ≡ some old
      → same_position old at ≡ false
      → has_position_changed id at known ≡ (true, Map.assign id at known)
  unfolding has_position_changed
  changed_other id at old known q h = rw (q, has_position_changed, h)

  changed_assigned :
      (id : ℕ) (at : Position) (known : Map Position)
      → same_position at at ≡ true
      → has_position_changed id at (Map.assign id at known) ≡ (false, Map.assign id at known)
  changed_assigned id at known h =
      unchanged id at at (Map.assign id at known)
        (find-assign id id at known ∙ rw ((==_iff id id).1 refl)) h

  -- Of two questions about the same position the second is answered with no, and changes nothing,
  -- if the position equals itself, which it does unless a coordinate is NaN.
  pub has_position_changed_twice :
      (id : ℕ) (at : Position) (known : Map Position)
      → same_position at at ≡ true
      → let known' = (has_position_changed id at known).1 in
        has_position_changed id at known' ≡ (false, known')
  has_position_changed_twice id at known h = elim (Option-cases (find id known)) [
    | inl q ↦ rw (changed_missing id at known q) (changed_assigned id at known h)
    | inr (old, q) ↦ elim (Bool-cases (same_position old at)) [
      | inl e ↦ rw (unchanged id at old known q e) (unchanged id at old known q e)
      | inr e ↦ rw (changed_other id at old known q e) (changed_assigned id at known h)
    ]
  ]

  -- The position remembered for another player.
  known-announce_change :
      (id j : ℕ) (at : Position) (g : Game)
      → j ≢ id
      → find j (announce_change id at g).last_known_positions ≡ find j g.last_known_positions
  unfolding announce_change announce_in
  known-announce_change id j at g ne =
      let kept : find j (Map.assign id at g.last_known_positions) ≡ find j g.last_known_positions =
        find-assign j id at g.last_known_positions ∙ elim (Bool-cases (id == j)) [
          | inl e ↦ absurd (ne (sym ((==_iff id j).0 e)))
          | inr e ↦ rw e
        ] in
      elim (Option-cases (find id g.last_known_positions)) [
        | inl q ↦ rw (changed_missing id at g.last_known_positions q) kept
        | inr (old, q) ↦ elim (Bool-cases (same_position old at)) [
          | inl e ↦ rw (unchanged id at old g.last_known_positions q e)
          | inr e ↦ rw (changed_other id at old g.last_known_positions q e) kept
        ]
      ]

  known-announce_if_changed :
      (id j : ℕ) (g g' : Game)
      → j ≢ id
      → announce_if_changed id g ≡ ok g'
      → find j g'.last_known_positions ≡ find j g.last_known_positions
  unfolding announce_if_changed
  known-announce_if_changed id j g g' ne h = go (get_player_position id g) refl
    where
      go :
          (r : Result Position)
          → get_player_position id g ≡ r
          → find j g'.last_known_positions ≡ find j g.last_known_positions
      go (ok at) e = rw (← ok-injective (rw e at h)) (known-announce_change id j at g ne)
      go (thrown out_of_range) e = rw (← ok-injective (rw e at h))
      go (thrown runtime_error) e = absurd (thrown_ok (rw e at h))
      go (thrown invalid_argument) e = absurd (thrown_ok (rw e at h))
      go (thrown undefined) e = absurd (thrown_ok (rw e at h))

  known-announce_players :
      (n i j : ℕ) (g g' : Game)
      → i + n ≤ j
      → announce_players n i g ≡ ok g'
      → find j g'.last_known_positions ≡ find j g.last_known_positions
  unfolding announce_players
  known-announce_players zero i j g g' far h = rw (← ok-injective h)
  known-announce_players (suc n) i j g g' far h =
      let (m, first, rest) = >>=-ok (announce_if_changed i g) _ h in
      known-announce_players n (i + 1) j m g' (omega arith) rest
      ∙ known-announce_if_changed i j g m (λ e. omega arith) first

  -- `playerPacketFactory`, if it does not throw, passes over every player whose identifier is not
  -- below the number of players: the position remembered for it stays, whatever its position is.
  player_packet_factory_misses :
      (id : ℕ) (g g' : Game)
      → length g.players ≤ id
      → player_packet_factory g ≡ ok g'
      → find id g'.last_known_positions ≡ find id g.last_known_positions
  unfolding player_packet_factory
  player_packet_factory_misses id g g' far h =
      known-announce_players (length g.players) 0 id g g' (omega arith) h

  nobody_at_0 : (g : Game) → find 0 g.players ≡ none → announce_players 1 0 g ≡ ok g
  unfolding announce_players announce_if_changed get_player_position
  nobody_at_0 g q = rw (q, announce_if_changed, get_player_position)

  factory_single :
      (id : ℕ) (q : Player) (g : Game)
      → g.players ≡ (id, q) ∷ []
      → 0 < id
      → player_packet_factory g ≡ ok g
  unfolding player_packet_factory
  factory_single id q g e h =
      subst (λ n. announce_players n 0 g ≡ ok g) (sym (ap length e))
        (nobody_at_0 g (subst (λ m. find 0 m ≡ none) (sym e) (find_single id q h)))

  -- When the only player left has another identifier than 0, a move of that player that does not
  -- throw is told to nobody: the server's queue and its packet numbers stay as they were.
  pub survivor_moves_untold :
      (id action : ℕ) (q : Player) (g g' : Game)
      → g.players ≡ (id, q) ∷ []
      → 0 < id
      → handle_player_move id action g ≡ ok g'
      → g'.server ≡ g.server
  unfolding handle_player_move
  survivor_moves_untold id action q g g' e h done =
      let (at, _, rest) = >>=-ok (get_player_position id g) _ done in
      let (q', _, last) = >>=-ok (move_player _ _ _) _ rest in
      let g₁ = record g { players = Map.assign id q' g.players } in
      let single : g₁.players ≡ (id, q') ∷ [] =
        subst (λ m. Map.assign id q' m ≡ (id, q') ∷ []) (sym e) (assign_single id q q') in
      rw (← ok-injective (sym (factory_single id q' g₁ single h) ∙ last))
