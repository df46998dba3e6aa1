-- ===== src/Tests/Worlds.antt =====
-- The packet handlers.
use bee_r_type.Prelude.{◌≡◌, refl, ◌≢◌, true, none, some, [], ◌∷◌, arith, ok, out_of_range, codes}
use bee_r_type.Prelude.Map
use bee_r_type.Prelude.Int.{pos}
use bee_r_type.Sample.{fixed}
use bee_r_type.Server.{
  Server, init, success, find_client, handle_receive, req_connect_data, handle_receive,
}
use bee_r_type.Server.Clients.{IsValid}
use bee_r_type.Server.History.{connects, step, history, history-init-IsValid}
use bee_r_type.Game.State.{new_game}
use bee_r_type.Game.Loop.{Times, update, failed}
use bee_r_type.Handlers.{
  World, with_server, handle_game_start, handle_game_end, sender, handle_player_action,
  process_packet,
}
use bee_r_type.Handlers.Sessions.{restart_adds_thread, gone_player_ends_game}
use bee_r_type.Handlers.Attribution.{overtaken_connect_lost}

-- Client 8 is connected.
abbrev server : Server
server = history (connects 8 ∷ []) (init 0 0)

server-IsValid : IsValid server
server-IsValid = history-init-IsValid 0 0 (connects 8 ∷ []) (omega arith)

abbrev world : World
world = record { game = new_game server (pos 0); games = []; running = true }

restart_adds_thread_example :
    let again = handle_game_start (handle_game_end (handle_game_start world)) in
    (again.games ≡ 1 ∷ 1 ∷ []) × (again.game.server.game_running ≡ true)
unfolding new_game history step req_connect_data init
restart_adds_thread_example = restart_adds_thread world refl

-- A game in which the client has no player, and the client's datagram was the last one.
abbrev lost : World
lost =
    with_server (λ s. handle_receive success 8 (codes "x") (record s { game_running = true })) world

times : Times
times = record { bullets = 0; enemies = 0; wave = 0; ui = 0 }

gone_player_ends_game_example :
    update (times ∷ []) (handle_player_action 3 lost).game ≡ failed out_of_range
unfolding new_game history step req_connect_data init sender handle_receive Map.find
gone_player_ends_game_example =
    gone_player_ends_game lost 0 3 times [] refl refl refl refl (omega arith) (omega arith)

overtaken_connect_lost_example :
    (w' w'' : World) × (process_packet (
        with_server
          (handle_receive success 6 (1 ∷ []))
          (with_server (handle_receive success 5 (1 ∷ [])) world))
      ≡ some (ok w'))
    × (process_packet w' ≡ some (ok w''))
    × (find_client 5 w''.game.server.clients ≡ none)
    × (find_client 6 w''.game.server.clients ≢ none)
unfolding new_game history step req_connect_data init
overtaken_connect_lost_example =
    overtaken_connect_lost 5 6 [] [] world (λ q. cc) server-IsValid (omega arith) refl refl
