-- ===== src/Handlers/Sessions.antt =====
-- When the handlers start and end a game, and what the packet of a player that is gone does to it.
use bee_r_type.Prelude.{
  ℕ, ◌≡◌, ◌<◌, true, false, none, some, List, [], ◌∷◌, length, arith, out_of_range,
}
use bee_r_type.Prelude.Map
use bee_r_type.Platform.{Platform}
use bee_r_type.Server.{announce}
use bee_r_type.Game.Actions.{add_player_action}
use bee_r_type.Game.Loop.{Times, stop, update, failed}
use bee_r_type.Game.Actions.Processing.{gone_player_ends_update}
use bee_r_type.Handlers.{World, handle_game_start, handle_game_end, sender, handle_player_action}

module _ ⦃p : Platform⦄ where
  -- `GAME_START` is answered once: while a game runs, another one changes nothing.
  pub handle_game_start_twice :
      (w : World)
      → (handle_game_start (handle_game_start w) ≡ handle_game_start w)
        × ((handle_game_start w).game.server.game_running ≡ true)
  unfolding handle_game_start
  handle_game_start_twice w = ground arith

  -- While no game runs, a `GAME_START`, a `GAME_END` and a `GAME_START` start two threads on the
  -- same game, each for as many players as there are clients.
  pub restart_adds_thread :
      (w : World)
      → w.game.server.game_running ≡ false
      → let again = handle_game_start (handle_game_end (handle_game_start w)) in
        let n = length w.game.server.clients in
        (again.games ≡ n ∷ n ∷ w.games) × (again.game.server.game_running ≡ true)
  unfolding handle_game_start handle_game_end stop announce
  restart_adds_thread w idle = ground arith

  -- A client whose identifier the map of players does not hold, as after its player died, ends the
  -- game's thread by one packet of movement: while a game runs and no other action waits, the
  -- packet queues an action, and the round that meets it throws `std::out_of_range`.
  pub gone_player_ends_game :
      (w : World) (id k : ℕ) (t : Times) (ts : List Times)
      → sender w ≡ some id
      → w.game.server.game_running ≡ true
      → Map.find id w.game.players ≡ none
      → w.game.player_actions ≡ []
      → 0 < k
      → k < 5
      → update (t ∷ ts) (handle_player_action k w).game ≡ failed out_of_range
  unfolding handle_player_action add_player_action
  gone_player_ends_game w id k t ts known busy gone idle low high =
      rw (handle_player_action, busy, known)
        (gone_player_ends_update id k [] _ t ts gone (rw idle) low high)
