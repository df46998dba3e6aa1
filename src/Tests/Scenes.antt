-- ===== src/Tests/Scenes.antt =====
-- Runs of the theorems on the client's scenes and its main loop.
use bee_r_type.Prelude.{
  arith, ok, false, ℕ, ◌≡◌, refl, true, none, some, List, [], ◌∷◌, codes, if◌then◌else◌, ◌||◌, ◌⊎◌,
}
use bee_r_type.Prelude.Int.{pos, negsuc}
use bee_r_type.Sample.{fixed, flat}
use bee_r_type.Server.{success}
use bee_r_type.Network.Packet.{
  PacketType, type_code, create_player, create_bullet, destroy_bullet, create_enemy, destroy_boss,
  game_start,
}
use bee_r_type.Client.{Client, PacketData, handle_receive, handle_send_timer}
use bee_r_type.Client.Sprites.{
  SpriteElement, Window, Event, closed, key_pressed, mouse_button_pressed, other_event, up_key,
  escape_key,
}
use bee_r_type.Client.GameScene.{
  enemies, bosses, server_action, GameScene, new_scene, update, handle_server_action,
}
use bee_r_type.Client.GameScene.Held.{holds}
use bee_r_type.Client.GameScene.Drawn.{Shows}
use bee_r_type.Client.GameScene.Announced.{Reads, announced_is_shown, ended_is_removed}
use bee_r_type.Client.Parsing.{join}
use bee_r_type.Client.Parsing.Crossed.{crossed_packets_counted}
use bee_r_type.Server.{create_packet, req_connect_data, disconnect_data, init}
use bee_r_type.Server.History.{history, step}
use bee_r_type.Prelude.Decimal.{stoi}
use bee_r_type.Tests.Clients.{server}
use bee_r_type.Client.GameScene.Frames.{Frame, run_frames, replay, holds-run_frames}
use bee_r_type.Client.GameScene.Keys.{Counts, alive, update-Counts}
use bee_r_type.Client.LobbyScene
use bee_r_type.Client.LobbyScene.{new_lobby, press_each}
use bee_r_type.Prelude.Table
use bee_r_type.Prelude.Table.{same_ℤ}
use bee_r_type.Client.MainLoop.{
  Io, send_timer, received, Turn, Program, enter, main_loop, returned, after_io, run_io, lobby_turn,
  queue_action,
}
use bee_r_type.Client.MainLoop.Ends.{Ended, main_loop-Ended}
use bee_r_type.Client.MainLoop.Closing.{main_loop-closed}
use bee_r_type.Client.MainLoop.Starting.{IsWaiting, clicks, lobby_turn_lem}
use bee_r_type.Tests.Clients.{fresh_client}

abbrev packet : PacketType → ℕ → PacketData
packet type id = record {
  action = pos (type_code type);
  server_id = pos id;
  new_x = pos 100;
  new_y = pos 200;
  new_vx = pos 50;
  new_vy = pos 0;
}

abbrev frame : PacketType → ℕ → List Event → Frame
frame type id events = record {
  packet = packet type id;
  events = events;
  now = 1_000_000;
  ping = pos 0;
  lost = pos 0;
}

abbrev window : Window
window = record { is_open = true; drawn = []; shown = [] }

abbrev scene : GameScene
scene = new_scene 0 1280 720 (packet game_start 0)

-- A bullet is announced and its end, and the window is closed.
abbrev frames : List Frame
frames =
    frame create_player 3 []
    ∷ frame create_bullet 7 (key_pressed up_key ∷ [])
    ∷ frame destroy_bullet 7 (closed ∷ [])
    ∷ []

holds-run_frames_example : holds (run_frames frames scene window).0 ≡ replay frames (holds scene)
holds-run_frames_example = holds-run_frames frames scene window

abbrev keys : List Event
keys = key_pressed up_key ∷ other_event ∷ key_pressed escape_key ∷ []

update-Counts_example :
    Counts keys
      (alive (pos 0) (handle_server_action scene).player_alive_status)
      scene
      window
      (update 5 (pos 0) (pos 0) keys scene window)
update-Counts_example =
    update-Counts 5 (pos 0) (pos 0) keys scene window ((λ h. cc), ((λ h. cc), ((λ h. cc), tt)))

abbrev raw : SpriteElement
raw = record { id = pos 5; hp = pos 1; vx = pos 0; vy = pos 0; sprite = flat.blank }

abbrev pub program : Program
program = enter 0 1280 720 200 100 raw window fresh_client

abbrev pub turn : List Io → List Event → List Event → Turn
turn io lobby game = record { io = io; lobby_events = lobby; game_events = game; now = 2_000_000 }

abbrev datagram : Io
datagram = received success 7 (codes "x;1;0;0;0;0;1")

-- A datagram comes, then a second, the start button is clicked, and the window is closed.
abbrev turns : List Turn
turns =
    turn (datagram ∷ datagram ∷ []) [] []
    ∷ turn (send_timer success ∷ []) (mouse_button_pressed (pos 5400, pos 3100) ∷ []) []
    ∷ turn [] [] (closed ∷ [])
    ∷ []

main_loop-Ended_example : Ended (main_loop turns program)
main_loop-Ended_example = main_loop-Ended turns program

main_loop-closed_example :
    (m : Program) × (main_loop (turn (send_timer success ∷ []) (closed ∷ []) [] ∷ []) program
      ≡ returned 0 m)
unfolding enter after_io run_io handle_send_timer queue_action
main_loop-closed_example =
    main_loop-closed (turn (send_timer success ∷ []) (closed ∷ []) []) [] program _ refl refl refl
      refl

-- The start button stands from (540, 310); a click beside it and one on it.
abbrev clicking : Turn
clicking =
    turn [] (mouse_button_pressed (pos 0, pos 0) ∷ mouse_button_pressed (pos 5400, pos 3100) ∷ [])
      []

lobby_turn_lem_example :
    let m' = lobby_turn clicking program in
    let clicked = clicks program.lobby.scenes clicking.lobby_events in
    (m'.client ≡ queue_action (if clicked then some game_start else none) program.client)
    × (m'.is_game_started ≡ (clicked || same_ℤ program.client.packet_data.action (pos 3)))
    × ((m'.is_game_started ≡ true) ⊎ IsWaiting m'.lobby)
unfolding enter new_lobby
lobby_turn_lem_example = lobby_turn_lem clicking program (refl, refl)

clicking-clicks : clicks program.lobby.scenes clicking.lobby_events ≡ true
unfolding enter new_lobby LobbyScene.create_sprites Table.assign Table.erase
clicking-clicks = refl

-- Values that the client reads in the segments 3, 100, 200, 0 and 0.
abbrev written : PacketData
written = record {
  action = pos 0;
  server_id = pos 3;
  new_x = pos 1000;
  new_y = pos 2000;
  new_vx = pos 0;
  new_vy = pos 0;
}

written-Reads : Reads (codes "3") (codes "100") (codes "200") (codes "0") (codes "0") written
unfolding stoi
written-Reads = record { plain = ground arith; id = refl; x = refl; y = refl; vx = refl; vy = refl }

announced_is_shown_example :
    let message =
      (create_packet create_enemy
        (join (codes "3" ∷ codes "100" ∷ codes "200" ∷ codes "0" ∷ []) (codes "0"))
        server).1 in
    (c' : Client) × (handle_receive success 9 message fresh_client ≡ ok c')
    × Shows enemies (pos 3) (
        run_frames (record (frame create_enemy 0 []) { packet = c'.packet_data } ∷ []) scene window)
unfolding history step req_connect_data disconnect_data init server_action
announced_is_shown_example =
    announced_is_shown create_enemy (codes "3") (codes "100") (codes "200") (codes "0") (codes "0")
      written server fresh_client 9 0 (frame create_enemy 0 []) scene window enemies refl
      written-Reads (omega arith) refl (omega arith) tt

ended_is_removed_example :
    let message =
      (create_packet destroy_boss
        (join (codes "3" ∷ codes "100" ∷ codes "200" ∷ codes "0" ∷ []) (codes "0"))
        server).1 in
    (c' : Client) × (handle_receive success 9 message fresh_client ≡ ok c')
    × (holds
          (run_frames
            (record (frame destroy_boss 0 []) { packet = c'.packet_data } ∷ [])
            scene
            window).0
          bosses
          (pos 3)
        ≡ false)
unfolding history step req_connect_data disconnect_data init server_action
ended_is_removed_example =
    ended_is_removed destroy_boss (codes "3") (codes "100") (codes "200") (codes "0") (codes "0")
      written server fresh_client 9 0 (frame destroy_boss 0 []) scene window bosses (λ h. cc) refl
      written-Reads (omega arith) refl (omega arith) tt

crossed_packets_counted_example :
    let d = codes "3" ∷ codes "100" ∷ codes "200" ∷ codes "0" ∷ [] in
    let (s', older) = create_packet create_enemy (join d (codes "0")) (init 0 0) in
    let newer = (create_packet destroy_boss (join d (codes "0")) s').1 in
    (c₁ c₂ : Client) × (handle_receive success 9 newer fresh_client ≡ ok c₁)
    × (handle_receive success 10 older c₁ ≡ ok c₂)
    × (c₂.packets_lost ≡ negsuc 19)
    × (c₂.packet_data ≡ record written { action = pos (type_code create_enemy) })
    × (c₂.last_packet_number ≡ pos 1)
unfolding init create_packet
crossed_packets_counted_example =
    crossed_packets_counted create_enemy destroy_boss (codes "3") (codes "100") (codes "200")
      (codes "0") (codes "0") (codes "3") (codes "100") (codes "200") (codes "0") (codes "0")
      written written (init 0 0) fresh_client 9 10 (λ h. cc) (λ h. cc) written-Reads written-Reads
      (omega arith) refl
