-- ===== src/Client/GameScene.antt =====
-- The scene of the running game, Client/src/GameScene.cpp: its making, its input and its update. What Scene
-- and Screen declare of it is passed on.
pub mod Scene
pub mod Screen
pub mod Kept
pub mod Held
pub mod Frames
pub mod Drawn
pub mod Announced
pub mod Keys
unfoldable pub use Scene.*
unfoldable pub use Screen.*
use bee_r_type.Prelude.{
  ℕ, ◌+◌, ◌-◌, ◌/◌, ◌%◌, ◌^◌, Bool, true, false, not, Option, none, some, List, [], ◌∷◌, ◌++◌, ltb,
  leb, if◌then◌else◌, codes,
}
use bee_r_type.Prelude.Int.{ℤ, pos}
use bee_r_type.Prelude.Decimal.{Bytes, to_string, to_string_ℤ}
use bee_r_type.Prelude.Table
use bee_r_type.Prelude.Table.{Table, same_ℤ}
use bee_r_type.Platform.{Platform}
use bee_r_type.Network.Packet.{
  PacketType, type_code, create_enemy, create_boss, create_player, create_bullet, change, ui_update,
  destroy_player, destroy_enemy, destroy_boss, destroy_bullet, player_right, player_left, player_up,
  player_down, player_shoot, game_end,
}
use bee_r_type.Client.{PacketData}
use bee_r_type.Client.Sprites.{
  SpriteType, enemy_type, boss_type, player_type, bullet_type, background_type, Color, white, green,
  red, Key, right_key, left_key, up_key, down_key, space_key, escape_key, Graphics, SpriteElement,
  Event, closed, key_pressed, Window, close, clear, draw, display, draw_each, text_drawn,
}

module _ ⦃p : Platform⦄ where
  open p use {Real, lit, truncate, Double, truncate_double}

  module _ ⦃g : Graphics p⦄ where
    open g use {
      Sprite, blank, set_texture, set_position, move, Text, blank_text, set_character_size,
      set_fill_color, set_text_position, set_string,
    }

    -- The constructor, with `init`, which loads the textures.
    unfoldable pub new_scene : ℕ → ℕ → ℕ → PacketData → GameScene
    new_scene now width height d = record {
      bullet_sprites = [];
      player_alive_status = [];
      player_sprites = [];
      server_positions = [];
      enemy_sprites = [];
      boss_sprites = [];
      scene_sprites = create_sprites background_type d [];
      fast_bullet_sprites = [];
      ui_sprites = set_ui width height [];
      new_action = none;
      health = pos 100;
      score = pos 0;
      game_start = now;
      latency_start = none;
      packet_data = d;
    }

    unfoldable pub check_game_end : GameScene → Bool
    check_game_end s = Table.empty s.player_sprites

    -- What a key does to `newAction_`, once the player is alive.
    abbrev pub key_action : Key → Option PacketType → Option PacketType
    key_action right_key old = some player_right
    key_action left_key old = some player_left
    key_action up_key old = some player_up
    key_action down_key old = some player_down
    key_action space_key old = some player_shoot
    key_action escape_key old = some game_end
    key_action _ old = old

    abbrev pub key_closes : Key → Window → Window
    key_closes escape_key w = close w
    key_closes _ w = w

    unfoldable pub press : Bool → Key → GameScene → Window → GameScene × Window
    press false key s w = (s, w)
    press true key s w = (record s { new_action = key_action key s.new_action }, key_closes key w)

    unfoldable pub handle_key_press : Key → GameScene → Window → GameScene × Window
    unfolding press
    handle_key_press key s w =
        let (status, alive) = Table.at false s.packet_data.server_id s.player_alive_status in
        press alive key (record s { player_alive_status = status }) w

    unfoldable pub end_game : Bool → GameScene → GameScene
    end_game false s = s
    end_game true s = record s { new_action = some game_end }

    unfoldable pub handle_closed : GameScene → Window → GameScene × Window
    unfolding end_game
    handle_closed s w =
        let d = s.packet_data in
        let s' = record s {
          player_sprites = destroy_sprite d (Table.erase d.server_id s.player_sprites);
        } in
        (end_game (check_game_end s') s', close w)

    unfoldable pub handle_event : Event → GameScene → Window → GameScene × Window
    handle_event closed s w = handle_closed s w
    handle_event (key_pressed key) s w = handle_key_press key s w
    handle_event _ s w = (s, w)

    unfoldable pub handle_input : List Event → GameScene → Window → GameScene × Window
    handle_input [] s w = (s, w)
    handle_input (e ∷ es) s w = let (s', w') = handle_event e s w in handle_input es s' w'

    -- `update`; the result of `checkGameEnd` is not used.
    unfoldable pub update :
        ℕ → Double → Double → List Event → GameScene → Window → GameScene × Window
    update now ping lost events s w =
        let (s', w') = render now ping lost (handle_server_action s) w in handle_input events s' w'

    -- `setPacketData`: the scene sees what the client holds.
    unfoldable pub set_packet_data : PacketData → GameScene → GameScene
    set_packet_data d s = record s { packet_data = d }

    unfoldable pub send_over_packets : GameScene → GameScene × Option PacketType
    send_over_packets s = (record s { new_action = none }, s.new_action)

    -- `cleanup`, which leaves the fast bullets and the positions.
    unfoldable pub cleanup : GameScene → Window → GameScene × Window
    cleanup s w = (
      record s {
        player_sprites = [];
        enemy_sprites = [];
        bullet_sprites = [];
        scene_sprites = [];
        boss_sprites = [];
        ui_sprites = [];
      },
      clear w,
    )
