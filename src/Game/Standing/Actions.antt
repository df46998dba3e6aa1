-- ===== src/Game/Standing/Actions.antt =====
-- The players' actions, on a game whose objects stand somewhere: which of them throw.
use bee_r_type.Prelude.{
  ℕ, ◌≡◌, refl, sym, ap, ◌∙◌, inl, inr, Bool, true, false, ◌&&◌, ◌||◌, none, some, List, [], ◌∷◌,
  ltb, ◌==◌, if◌then◌else◌, Bool-cases, Option-cases, thrown, out_of_range, Succeeds, >>=-Succeeds,
}
use bee_r_type.Prelude.Map
use bee_r_type.Prelude.Map.{Map, keys}
use bee_r_type.Platform.{Platform}
use bee_r_type.Entities.{Player}
use bee_r_type.Game.State.{Game, PlayerAction}
use bee_r_type.Game.Spawning.{spawn_bullet}
use bee_r_type.Game.Movement.{handle_player_move}
use bee_r_type.Game.Actions.{
  process_action, process_actions, process_player_actions, delete_player_action,
}
use bee_r_type.Game.Standing.{HasPositions}
use bee_r_type.Game.Standing.Moves.{
  Keeps, handle_player_move-HasPositions, handle_player_move_gone, spawn_bullet-HasPositions,
}

module _ {ℓ} {V : Type ℓ} where
  abbrev pub lacks : ℕ → Map V → Bool
  lacks id m = elim (Map.find id m) [ none ↦ true | some _ ↦ false ]

not_in : ℕ → List ℕ → Bool
not_in id [] = true
not_in id (j ∷ js) = if j == id then false else not_in id js

lacks-not_in {ℓ} : {V : Type ℓ} (id : ℕ) (m : Map V) → lacks id m ≡ not_in id (keys m)
unfolding Map.find not_in
lacks-not_in id [] = refl
lacks-not_in id ((j, v) ∷ m) = elim (Bool-cases (j == id)) [
  | inl q ↦ rw (lacks, q)
  | inr q ↦ rw (lacks, q) (lacks-not_in id m)
]

-- Whether an action moves a player, and whether that player is not in the map.
abbrev pub moves : PlayerAction → Bool
moves a = ltb 0 a.action_id && ltb a.action_id 5

module _ ⦃p : Platform⦄ where
  abbrev pub is_lost : Map Player → PlayerAction → Bool
  is_lost m a = moves a && lacks a.player_id m

  -- Whether one of the actions moves a player that is not in the map.
  unfoldable pub any_lost : Map Player → List PlayerAction → Bool
  any_lost m [] = false
  any_lost m (a ∷ more) = is_lost m a || any_lost m more

  any_lost-keys :
      (m m' : Map Player) (as' : List PlayerAction)
      → keys m' ≡ keys m
      → any_lost m' as' ≡ any_lost m as'
  unfolding any_lost
  any_lost-keys m m' [] e = refl
  any_lost-keys m m' (a ∷ more) e =
      let same : lacks a.player_id m' ≡ lacks a.player_id m =
        lacks-not_in a.player_id m'
        ∙ (ap (not_in a.player_id) e ∙ sym (lacks-not_in a.player_id m)) in
      rw (same, any_lost-keys m m' more e)

  process_action_lost :
      (a : PlayerAction) (g : Game)
      → is_lost g.players a ≡ true
      → process_action a g ≡ thrown out_of_range
  unfolding process_action
  process_action_lost a g h = elim (Bool-cases (moves a)) [
    | inr q ↦ cc
    | inl q ↦ elim (Option-cases (Map.find a.player_id g.players)) [
      | inl none_there ↦
          rw (q, process_action, handle_player_move_gone a.player_id a.action_id g none_there)
      | inr (r, there) ↦ cc
    ]
  ]

  process_action-HasPositions :
      (a : PlayerAction) (g : Game)
      → HasPositions g
      → is_lost g.players a ≡ false
      → Succeeds (process_action a g) (λ r. Keeps g r.1)
  unfolding process_action
  process_action-HasPositions a g h found = elim (Bool-cases (moves a)) [
    | inl q ↦ elim (Option-cases (Map.find a.player_id g.players)) [
      | inl gone ↦ cc
      | inr (r, there) ↦
          rw (q, process_action)
            (>>=-Succeeds (Keeps g) (λ r. Keeps g r.1)
              (handle_player_move a.player_id a.action_id g) _
              (handle_player_move-HasPositions a.player_id a.action_id g r h there)
              (λ g' k. (_, refl, k)))
    ]
    | inr q ↦ elim (Bool-cases (a.action_id == 5)) [
      | inl shot ↦
          rw (q, process_action, shot)
            (>>=-Succeeds (Keeps g) (λ r. Keeps g r.1) (spawn_bullet a.player_id g) _
              (spawn_bullet-HasPositions a.player_id g h) (λ g' k. (_, refl, k)))
      | inr other ↦ rw (q, process_action, other) ((a, g), refl, (h, refl))
    ]
  ]

  process_actions-outcome :
      (as' : List PlayerAction) (g : Game)
      → HasPositions g
      → (any_lost g.players as' ≡ true → process_actions as' g ≡ thrown out_of_range)
        × (any_lost g.players as' ≡ false
            → Succeeds (process_actions as' g) (λ r. HasPositions r.1))
  unfolding process_actions any_lost
  process_actions-outcome [] g h = (λ lost. cc, λ _. (([], g), refl, h))
  process_actions-outcome (a ∷ more) g h = elim (Bool-cases (is_lost g.players a)) [
    | inl q ↦ (λ _. rw (process_action_lost a g q), λ found. cc)
    | inr q ↦
        let ((a', g'), returns, (h', same)) = process_action-HasPositions a g h q in
        let (throws, succeeds) = process_actions-outcome more g' h' in
        let lost = any_lost-keys g.players g'.players more same in
        (
          λ l. rw (returns, throws (lost ∙ rw q at l)),
          λ f. rw returns (
              >>=-Succeeds (λ r. HasPositions r.1) (λ r. HasPositions r.1) (process_actions more g')
                _ (succeeds (lost ∙ rw q at f)) (λ r k. (_, refl, k))),
        )
  ]

  -- The actions are processed to the end exactly if none of them moves a player that is gone.
  pub process_player_actions-outcome :
      (g : Game)
      → HasPositions g
      → (any_lost g.players g.player_actions ≡ true
          → process_player_actions g ≡ thrown out_of_range)
        × (any_lost g.players g.player_actions ≡ false
            → Succeeds (process_player_actions g) HasPositions)
  unfolding process_player_actions delete_player_action
  process_player_actions-outcome g h =
      let (throws, succeeds) = process_actions-outcome g.player_actions g h in
      (
        λ lost. rw (throws lost, process_player_actions),
        λ found.
            >>=-Succeeds (λ r. HasPositions r.1) HasPositions (process_actions g.player_actions g) _
              (succeeds found) (λ r k. (_, refl, k)),
      )
