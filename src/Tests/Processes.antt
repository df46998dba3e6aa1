-- ===== src/Tests/Processes.antt =====
-- A run of the server's process.
use bee_r_type.Prelude.{
  ℕ, ◌≡◌, refl, All, List, get_elem?, Option, none, some, [], ◌∷◌, arith, Result, ok, thrown,
  out_of_range, true, false, ◌⊎◌,
}
use bee_r_type.Prelude.Int.{pos}
use bee_r_type.Prelude.Decimal.{Bytes}
use bee_r_type.Sample.{fixed, flat, fixed-IsPrinting}
use bee_r_type.Ecs.Registry.{empty_registry, add_component, spawn_entity, register_component}
use bee_r_type.Server.{success, handle_receive, handle_send_timer}
use bee_r_type.Server.Clients.{IsValid}
use bee_r_type.Server.Numbers.{IsNumbered, numbering}
use bee_r_type.Game.State.{Game, register_components}
use bee_r_type.Game.Keys.{HasFreshKeys}
use bee_r_type.Game.Loop.{Times, initialize_players}
use bee_r_type.Game.Loop.Stages.{Stage, acting, moving_bullets, following, call_stage}
use bee_r_type.Game.Actions.{process_player_actions}
use bee_r_type.Game.Drift.{update_bullets}
use bee_r_type.Handlers.{World, process_packet}
use bee_r_type.Game.Collisions.{remove_loop}
use bee_r_type.Process.{
  begun, Process, receives, sends, handles, begins, plays, Reach, here, next, steps, start_process,
  on_server, with_world, with_game,
}
use bee_r_type.Game.Standing.Rounds.{is_lost_at}
use bee_r_type.Tests.Clients.{fresh_client}
use bee_r_type.Process.Wire.{Reads, sent-Reads}
use bee_r_type.Process.Clients.{Survives, main_loop-Survives}
use bee_r_type.Client.MainLoop.{Turn, received, main_loop}
use bee_r_type.Tests.Scenes.{program, turn}
use bee_r_type.Process.Ends.{process_ends_only}
use bee_r_type.Process.Sound.{start_process-ProcessSound}

abbrev world_or : World → Option (Result World) → World
world_or w (some (ok w')) = w'
world_or w _ = w

abbrev game_or : Game → Result Game → Game
game_or g (ok g') = g'
game_or g _ = g

-- Client 8 connects and starts the game.
abbrev asked : Process
asked = on_server (handle_receive success 8 (1 ∷ [])) (start_process 0 0 (pos 0))

abbrev connected : Process
connected = with_world (world_or asked.world (process_packet asked.world)) asked

abbrev told : Process
told = on_server (handle_receive success 8 (3 ∷ [])) connected

abbrev started : Process
started = with_world (world_or told.world (process_packet told.world)) told

abbrev joined : Process
joined =
    record (with_game (game_or started.world.game (initialize_players 1 started.world.game))
      started) { waiting = []; playing = acting ∷ [] }

abbrev times : Times
times = record { bullets = 0; enemies = 0; wave = 0; ui = 0 }

-- The call of the game's thread that comes next.
abbrev called : Stage → Process → Process
called k x = record (with_game (game_or x.world.game (call_stage k times x.world.game)) x) {
  playing = following k ∷ [];
}

-- The thread makes two calls of its round.
abbrev acted : Process
acted = called acting joined

abbrev played : Process
played = called moving_bullets acted

abbrev sent : Process
sent = on_server (handle_send_timer success) played

to_started : Reach (start_process 0 0 (pos 0)) started
unfolding start_process process_packet handle_receive
to_started =
    next
      (next
        (next (next here (receives success 8 (1 ∷ []) refl))
          (handles (world_or asked.world (process_packet asked.world)) refl refl))
        (receives success 8 (3 ∷ []) refl))
      (handles (world_or told.world (process_packet told.world)) refl refl)

to_sent : Reach (start_process 0 0 (pos 0)) sent
unfolding start_process process_packet handle_receive initialize_players call_stage
    process_player_actions update_bullets to_started begun add_component spawn_entity
    register_component remove_loop
to_sent =
    next
      (next
        (next (next to_started (begins [] [] 1 joined.world.game refl refl))
          (plays [] [] acting times acted.world.game refl refl))
        (plays [] [] moving_bullets times played.world.game refl refl))
      (sends success refl)

start_process-ProcessSound_example :
    IsValid sent.world.game.server
    × IsNumbered (numbering sent.world.game.server)
    × HasFreshKeys sent.world.game
    × (sent.world.game.registry ≡ register_components empty_registry)
unfolding to_sent to_started steps handle_send_timer
start_process-ProcessSound_example =
    start_process-ProcessSound 0 0 (pos 0) to_sent (omega arith) (omega arith)

process_ends_only_example :
    ((process_packet sent.world ≡ none) ⊎ ((w : World) × (process_packet sent.world ≡ some (ok w))))
    × ((g : Game) × (initialize_players 1 sent.world.game ≡ ok g))
    × (((is_lost_at acting sent.world.game ≡ true)
          × (call_stage acting times sent.world.game ≡ thrown out_of_range))
        ⊎ ((is_lost_at acting sent.world.game ≡ false)
            × ((g : Game) × (call_stage acting times sent.world.game ≡ ok g))))
process_ends_only_example = process_ends_only 0 0 (pos 0) to_sent 1 acting times

sent-Reads_example : All (λ x. Reads fresh_client 7 x.0) sent.world.game.server.sent
unfolding to_sent to_started steps
sent-Reads_example = sent-Reads fixed-IsPrinting 0 0 (pos 0) to_sent fresh_client 7 (omega arith)

abbrev bytes_of : Option (Bytes × ℕ) → Bytes
bytes_of none = []
bytes_of (some x) = x.0

-- The client gets the answer to its connection, and then the start of the game.
abbrev hearing : List Turn
hearing =
    turn (received success 5 (bytes_of (get_elem? sent.world.game.server.sent 0)) ∷ []) [] []
    ∷ turn (received success 6 (bytes_of (get_elem? sent.world.game.server.sent 1)) ∷ []) [] []
    ∷ []

main_loop-Survives_example : Survives (main_loop hearing program)
unfolding to_sent to_started steps start_process process_packet handle_receive handle_send_timer
    initialize_players call_stage process_player_actions update_bullets begun add_component
    spawn_entity register_component remove_loop
main_loop-Survives_example =
    main_loop-Survives fixed-IsPrinting 0 0 (pos 0) to_sent hearing program (omega arith)
      (((0, 8, refl), tt), (((1, 8, refl), tt), tt))
