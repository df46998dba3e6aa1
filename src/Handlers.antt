-- ===== src/Handlers.antt =====
-- `PacketHandler` of Network/src/PacketHandler.cpp. The queue, the server and the game that it refers
-- to are those of the game's server, as `runServer` of Server/main.cpp builds them. A handler runs
-- as one step of its thread.
pub mod Sessions
pub mod Attribution
use bee_r_type.Prelude.{
  ℕ, ◌+◌, Bool, true, false, Option, none, some, List, [], ◌∷◌, ◌++◌, ◌==◌, if◌then◌else◌, length,
}
use bee_r_type.Prelude.Int.{ℤ, pos, negsuc}
use bee_r_type.Platform.{Platform}
use bee_r_type.Network.Packet.{Packet, game_start}
use bee_r_type.Network.Queue
use bee_r_type.Server
use bee_r_type.Server.{Server, find_client, announce, send_pong, req_connect_data, disconnect_data}
use bee_r_type.Game.State.{Game}
use bee_r_type.Game.Spawning.{spawn_bullet}
use bee_r_type.Game.Actions.{add_player_action}
use bee_r_type.Game.Loop.{stop}
use bee_r_type.Prelude.{Result, ok, thrown, ◌>>=◌}

-- The entries of `m_handlers`.
pub data Handler : Type 0 where
  on_none on_connect on_disconnect on_game_start on_up on_down on_left on_right : Handler
  on_shoot on_game_end on_ping : Handler

-- `m_handlers.find(packet.type)`, after `initializeHandlers`.
unfoldable pub find_handler : ℤ → Option Handler
find_handler (negsuc n) = none
find_handler (pos n) =
    if n == 0
    then some on_none
    else if n == 1
    then some on_connect
    else if n == 2
    then some on_disconnect
    else if n == 3
    then some on_game_start
    else if n == 18
    then some on_up
    else if n == 19
    then some on_down
    else if n == 17
    then some on_left
    else if n == 16
    then some on_right
    else if n == 6
    then some on_shoot
    else if n == 15
    then some on_game_end
    else if n == 99
    then some on_ping
    else none

module _ ⦃p : Platform⦄ where
  -- `games` lists the numbers of players that a game thread was started with, the last first.
  pub record World : Type 0 where
    pub game : Game
    pub games : List ℕ
    pub running : Bool

  -- `m_running` and the thread.
  unfoldable pub start : World → World
  start w = record w { running = true }

  unfoldable pub stop_handler : World → World
  stop_handler w = record w { running = false }

  abbrev pub with_server : (Server → Server) → World → World
  with_server f w = record w { game = record g { server = f g.server } }
    where
      open w use {game as g}

  unfoldable pub req_connect : World → World
  unfolding req_connect_data
  req_connect = with_server (λ s. (req_connect_data s.remote_endpoint s).0)

  unfoldable pub handle_disconnected : World → World
  unfolding disconnect_data
  handle_disconnected = with_server (λ s. (disconnect_data s.remote_endpoint s).0)

  unfoldable pub handle_game_start : World → World
  unfolding announce
  handle_game_start w =
      let s = w.game.server in
      if s.game_running
      then w
      else record (with_server (λ s. announce game_start [] (record s { game_running = true })) w) {
        games = length s.clients ∷ w.games;
      }

  unfoldable pub handle_game_end : World → World
  unfolding stop
  handle_game_end w =
      let s = w.game.server in
      if s.game_running
      then record w { game = stop (record game { server = record s { game_running = false } }) }
      else w
    where
      open w use {game}

  -- The search of a client by the endpoint that the server received from last.
  unfoldable pub sender : World → Option ℕ
  unfolding find_client
  sender w = elim (find_client w.game.server.remote_endpoint w.game.server.clients) [
    | none ↦ none
    | some (id, c) ↦ some id
  ]

  unfoldable pub handle_player_shoot : World → Result World
  unfolding sender spawn_bullet
  handle_player_shoot w = elim (sender w) [
    | none ↦ ok w
    | some id ↦ spawn_bullet id w.game >>= λ g. ok (record w { game = g })
  ]

  unfoldable pub handle_player_action : ℕ → World → World
  unfolding sender add_player_action
  handle_player_action action w =
      if w.game.server.game_running
      then elim (sender w) [
        | none ↦ w
        | some id ↦ record w { game = add_player_action id action w.game }
      ]
      else w

  unfoldable pub handle_ping : World → World
  unfolding send_pong
  handle_ping = with_server send_pong

  unfoldable pub call_handler : Handler → World → Result World
  unfolding req_connect handle_disconnected handle_game_start handle_player_action
      handle_player_shoot handle_game_end handle_ping
  call_handler on_none w = ok w
  call_handler on_connect w = ok (req_connect w)
  call_handler on_disconnect w = ok (handle_disconnected w)
  call_handler on_game_start w = ok (handle_game_start w)
  call_handler on_up w = ok (handle_player_action 3 w)
  call_handler on_down w = ok (handle_player_action 4 w)
  call_handler on_left w = ok (handle_player_action 1 w)
  call_handler on_right w = ok (handle_player_action 2 w)
  call_handler on_shoot w = handle_player_shoot w
  call_handler on_game_end w = ok (handle_game_end w)
  call_handler on_ping w = ok (handle_ping w)

  -- An unknown type is only printed.
  unfoldable pub handle_packet : Packet → World → Result World
  unfolding find_handler call_handler
  handle_packet packet w = elim (find_handler packet.code) [
    | none ↦ ok w
    | some h ↦ call_handler h w
  ]

  -- One round of `processPackets`; `none` where the handler's thread waits in `pop`.
  unfoldable pub process_packet : World → Option (Result World)
  unfolding handle_packet Queue.pop
  process_packet w = elim (Queue.pop w.game.server.packet_queue) [
    | none ↦ none
    | some (packet, q) ↦
        some (handle_packet packet (with_server (λ s. record s { packet_queue = q }) w))
  ]
