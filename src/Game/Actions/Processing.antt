-- ===== src/Game/Actions/Processing.antt =====
-- What a round of `processPlayerActions` leaves, and what a player that is gone makes of it.
use bee_r_type.Prelude.{
  ℕ, ◌<◌, ◌≡◌, sym, subst, Bool, true, ◌&&◌, not, none, List, [], ◌∷◌, ltb, if◌then◌else◌, ok,
  thrown, out_of_range, >>=-ok, ok-injective, arith,
}
use bee_r_type.Prelude.Map
use bee_r_type.Platform.{Platform}
use bee_r_type.Game.State.{Game, PlayerAction, new_action, set_processed}
use bee_r_type.Game.Movement.{handle_player_move, get_player_position}
use bee_r_type.Game.Actions.{
  drop_processed, process_action, process_actions, process_player_actions, delete_player_action,
}
use bee_r_type.Game.Loop.{Times, update, update_round, failed}

-- An action that waits: neither processed nor one of the five that the game knows.
abbrev pub waits : PlayerAction → Bool
waits a = not a.processed && not (ltb 0 a.action_id && ltb a.action_id 6)

abbrev pub waiting : List PlayerAction → List PlayerAction
waiting [] = []
waiting (a ∷ more) = let rest = waiting more in if waits a then a ∷ rest else rest

module _ ⦃p : Platform⦄ where
  abbrev marked : PlayerAction → PlayerAction
  marked a = if ltb 0 a.action_id && ltb a.action_id 6 then set_processed true a else a

  process_action-marked :
      (a b : PlayerAction) (g g' : Game) → process_action a g ≡ ok (b, g') → b ≡ marked a
  unfolding process_action
  process_action-marked a b g g' h = ground arith

  process_actions-waiting :
      (l l' : List PlayerAction) (g g' : Game)
      → process_actions l g ≡ ok (l', g')
      → drop_processed l' ≡ waiting l
  unfolding process_actions drop_processed set_processed
  process_actions-waiting [] l' g g' h = ground arith
  process_actions-waiting (a ∷ more) l' g g' h =
      let ((b, g₁), first, h₁) = >>=-ok (process_action a g) _ h in
      let ((l₁, g₂), rest, h₂) = >>=-ok (process_actions more g₁) _ h₁ in
      let left = process_actions-waiting more l₁ g₁ g₂ rest in
      let mark = process_action-marked a b g g₁ first in ground (arith, left, mark, h₂)

  -- A round that does not throw leaves the actions that no case of the round knows and that were not
  -- processed before, in their order; it marks and drops all the others.
  process_player_actions-waiting :
      (g g' : Game)
      → process_player_actions g ≡ ok g'
      → g'.player_actions ≡ waiting g.player_actions
  unfolding process_player_actions delete_player_action
  process_player_actions-waiting g g' h =
      let ((l, g₁), done, h₁) = >>=-ok (process_actions g.player_actions g) _ h in
      rw (← ok-injective h₁) (process_actions-waiting g.player_actions l g g₁ done)

  gone_player_throws :
      (id k : ℕ) (more : List PlayerAction) (g : Game)
      → Map.find id g.players ≡ none
      → 0 < k
      → k < 5
      → process_actions (new_action id k ∷ more) g ≡ thrown out_of_range
  unfolding process_actions process_action handle_player_move get_player_position new_action
  gone_player_throws id k more g gone low high = ground arith

  -- A round whose first action is a move of a player that the map of players does not hold ends the call
  -- of `update`, and with it the game's thread, with `std::out_of_range`.
  pub gone_player_ends_update :
      (id k : ℕ) (more : List PlayerAction) (g : Game) (t : Times) (ts : List Times)
      → Map.find id g.players ≡ none
      → g.player_actions ≡ new_action id k ∷ more
      → 0 < k
      → k < 5
      → update (t ∷ ts) g ≡ failed out_of_range
  unfolding update update_round process_player_actions
  gone_player_ends_update id k more g t ts gone first low high =
      let throws : process_actions g.player_actions g ≡ thrown out_of_range =
        subst (λ l. process_actions l g ≡ thrown out_of_range) (sym first)
          (gone_player_throws id k more g gone low high) in
      rw (throws, update, update_round, process_player_actions)
