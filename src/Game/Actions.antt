-- ===== src/Game/Actions.antt =====
-- The players' actions: `addPlayerAction`, `processPlayerActions` and `deletePlayerAction` of
-- GameEngine/src/AGame.cpp. Actions that another thread adds while these run are not modelled.
pub mod Processing
pub mod Keys
use bee_r_type.Prelude.{
  ℕ, zero, suc, ◌+◌, Bool, true, false, ◌&&◌, List, [], ◌∷◌, ◌++◌, ltb, ◌==◌, if◌then◌else◌, Result,
  ok, ◌>>=◌,
}
use bee_r_type.Platform.{Platform}
use bee_r_type.Game.State.{Game, PlayerAction, new_action, set_processed}
use bee_r_type.Game.Spawning.{spawn_bullet}
use bee_r_type.Game.Movement.{handle_player_move}

-- `std::remove_if` with `getProcessed`, and `erase`.
unfoldable pub drop_processed : List PlayerAction → List PlayerAction
drop_processed [] = []
drop_processed (a ∷ more) = let rest = drop_processed more in if a.processed then rest else a ∷ rest

module _ ⦃p : Platform⦄ where
  unfoldable pub add_player_action : ℕ → ℕ → Game → Game
  unfolding new_action
  add_player_action player action g = record g {
    player_actions = g.player_actions ++ new_action player action ∷ [];
  }

  unfoldable pub delete_player_action : Game → Game
  unfolding drop_processed
  delete_player_action g = record g { player_actions = drop_processed g.player_actions }

  -- The body of the loop: the action as it is left, and the game.
  unfoldable pub process_action : PlayerAction → Game → Result (PlayerAction × Game)
  unfolding handle_player_move spawn_bullet set_processed
  process_action a g =
      if ltb 0 a.action_id && ltb a.action_id 5
      then (handle_player_move a.player_id a.action_id g >>= λ g'. ok (set_processed true a, g'))
      else if a.action_id == 5
      then (spawn_bullet a.player_id g >>= λ g'. ok (set_processed true a, g'))
      else ok (a, g)

  unfoldable pub process_actions : List PlayerAction → Game → Result (List PlayerAction × Game)
  unfolding process_action
  process_actions [] g = ok ([], g)
  process_actions (a ∷ more) g = do
    first ← process_action a g
    rest ← process_actions more first.1
    ok (first.0 ∷ rest.0, rest.1)

  unfoldable pub process_player_actions : Game → Result Game
  unfolding process_actions delete_player_action
  process_player_actions g = do
    done ← process_actions g.player_actions g
    let g' = done.1
    ok (delete_player_action (record g' { player_actions = done.0 }))
