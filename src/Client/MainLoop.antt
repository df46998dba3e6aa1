-- ===== src/Client/MainLoop.antt =====
-- The client's two threads: `main_loop` of Client/src/Client.cpp, and the handlers that the I/O thread
-- runs between two of its iterations.
pub mod Starting
pub mod Closing
pub mod Ends
use bee_r_type.Prelude.{
  ℕ, Bool, true, false, ◌&&◌, not, Option, none, some, List, [], ◌∷◌, ◌++◌, if◌then◌else◌,
  Exception, Result, thrown, ok, ◌>>=◌,
}
use bee_r_type.Prelude.Int.{ℤ, pos}
use bee_r_type.Prelude.Table.{same_ℤ}
use bee_r_type.Prelude.Decimal.{Bytes}
use bee_r_type.Platform.{Platform}
use bee_r_type.Server.{ErrorCode, success, message_size}
use bee_r_type.Network.Packet.{PacketType, req_connect, disconnected}
use bee_r_type.Client.{
  Client, create_packet, send, handle_receive, handle_send, handle_send_timer, handle_ping_timer,
}
use bee_r_type.Client.Sprites.{Graphics, SpriteElement, Event, Window, close}
use bee_r_type.Client.LobbyScene
use bee_r_type.Client.LobbyScene.{LobbyScene, check_game_start, new_lobby}
use bee_r_type.Client.GameScene
use bee_r_type.Client.GameScene.{GameScene, new_scene}

-- A datagram locks the mutex; an error does not.
abbrev pub locks : ErrorCode → Bool
locks success = true
locks message_size = true
locks _ = false

module _ ⦃p : Platform⦄ where
  open p use {relock_waits, unlock_keeps}

  -- A handler of the I/O thread, with the readings of its clock.
  pub data Io : Type 0 where
    received : ErrorCode → ℕ → Bytes → Io
    message_sent : ErrorCode → Io
    send_timer : ErrorCode → Io
    ping_timer : ErrorCode → ℕ → ℕ → ℕ → Io

  -- `handleReceive` locks the mutex and does not unlock it, so that the next datagram locks a mutex
  -- which its own thread owns. Where that waits, all handlers behind it wait too. The second component
  -- is whether the mutex is locked.
  unfoldable pub run_io : List Io → Bool → Client → Result (Client × Bool)
  run_io [] locked c = ok (c, locked)
  run_io (received e now bytes ∷ ios) locked c = elim (locks e && (locked && relock_waits)) [
    | true ↦ ok (c, locked)
    | false ↦
        handle_receive e now bytes c >>= λ c'. run_io ios (if locks e then true else locked) c'
  ]
  run_io (message_sent e ∷ ios) locked c = run_io ios locked (handle_send e c)
  run_io (send_timer e ∷ ios) locked c = run_io ios locked (handle_send_timer e c)
  run_io (ping_timer e t₁ t₂ t₃ ∷ ios) locked c = run_io ios locked (handle_ping_timer e t₁ t₂ t₃ c)

  unfoldable pub send_exit_packet : Client → Client
  send_exit_packet c = send (create_packet disconnected) c

  unfoldable pub queue_action : Option PacketType → Client → Client
  queue_action none c = c
  queue_action (some t) c = record c { send_queue = c.send_queue ++ create_packet t ∷ [] }

  module _ ⦃g : Graphics p⦄ where
    -- The local variables of `main_loop`, with the members that it uses.
    pub record Program : Type 0 where
      pub client : Client
      pub locked : Bool
      pub window : Window
      pub lobby : LobbyScene
      pub game : GameScene
      pub is_game_started : Bool

    -- What happens in one iteration: the handlers that run before it, and what the two scenes poll.
    pub record Turn : Type 0 where
      pub io : List Io
      pub lobby_events : List Event
      pub game_events : List Event
      pub now : ℕ

    -- `terminated` is an exception that leaves the I/O thread, which ends the process.
    pub data Outcome : Type 0 where
      running : Program → Outcome
      returned : ℕ → Program → Outcome
      terminated : Exception → Outcome

    -- What stands before the loop. `raw` is what the sprites of the lobby hold before they are set.
    unfoldable pub enter : ℕ → ℕ → ℕ → ℕ → ℕ → SpriteElement → Window → Client → Program
    enter now width height button_width button_height raw w c = record {
      client = queue_action (some req_connect) c;
      locked = false;
      window = w;
      lobby = new_lobby width height button_width button_height raw c.packet_data;
      game = new_scene now width height c.packet_data;
      is_game_started = false;
    }

    unfoldable pub lobby_turn : Turn → Program → Program
    lobby_turn t m =
        let (s, w) =
          LobbyScene.update t.lobby_events (LobbyScene.set_packet_data m.client.packet_data m.lobby)
            m.window in
        let (s', action) = LobbyScene.send_over_packets s in
        let (started, s'', w') = check_game_start s' w in
        record m {
          client = queue_action action m.client;
          window = w';
          lobby = s'';
          is_game_started = started;
        }

    unfoldable pub game_turn : Turn → Program → Program
    game_turn t m =
        let c = m.client in
        let (s, w) =
          GameScene.update t.now c.ping c.packets_lost t.game_events
            (GameScene.set_packet_data c.packet_data m.game) m.window in
        let (s', action) = GameScene.send_over_packets s in
        record m {
          client = queue_action action (record c { packet_data = s'.packet_data });
          window = w;
          game = s';
        }

    -- The two scenes of one iteration.
    abbrev pub lobby_part : Turn → Program → Program
    lobby_part t m = if m.is_game_started then m else lobby_turn t m

    abbrev pub game_part : Turn → Program → Program
    game_part t m = if m.is_game_started && m.window.is_open then game_turn t m else m

    -- The body of the loop, where the window is open. It ends with the unlocking of the mutex, whoever
    -- locked it.
    unfoldable pub iterate : Turn → Program → Outcome
    iterate t m =
        if same_ℤ m.client.packet_data.action (pos 30)
        then returned 1 m
        else (let m' = game_part t (lobby_part t m) in
            if m'.window.is_open
            then running (record m' { locked = m'.locked && unlock_keeps })
            else returned 0 (record m' { client = send_exit_packet m'.client }))

    unfoldable pub after_io : Turn → Program → Result Program
    after_io t m =
        run_io t.io m.locked m.client >>= λ r. ok (record m { client = r.0; locked = r.1 })

    -- The test of the loop, the other thread, and the body.
    unfoldable pub step : Turn → Program → Outcome
    step t m =
        if m.window.is_open
        then (elim (after_io t m) as (λ _. Outcome) [
          | thrown e ↦ terminated e
          | ok m' ↦ iterate t m'
        ])
        else returned 0 (record m { client = send_exit_packet m.client })

    abbrev pub and_then : Outcome → (Program → Outcome) → Outcome
    and_then (running m) next = next m
    and_then (returned n m) next = returned n m
    and_then (terminated e) next = terminated e

    unfoldable pub main_loop : List Turn → Program → Outcome
    main_loop [] m = running m
    main_loop (t ∷ ts) m = and_then (step t m) λ m'. main_loop ts m'

    -- `stop`: the window, the timers, the socket and the other thread. Only the window is the loop's.
    unfoldable pub stop : Program → Program
    stop m = if m.window.is_open then record m { window = close m.window } else m

    -- `signalHandler` of Client/main.cpp, where there is a client.
    unfoldable pub signal_handler : Program → Program
    unfolding stop send_exit_packet
    signal_handler m = let m' = stop m in record m' { client = send_exit_packet m'.client }
