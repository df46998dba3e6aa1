-- ===== src/Client/GameScene/Scene.antt =====
-- The state of the scene and what the actions of the server do to it, Client/src/GameScene.cpp.
use bee_r_type.Prelude.{ℕ, Bool, true, false, Option, none, some, if◌then◌else◌}
use bee_r_type.Prelude.Int.{ℤ, pos}
use bee_r_type.Prelude.Table
use bee_r_type.Prelude.Table.{Table, same_ℤ}
use bee_r_type.Platform.{Platform}
use bee_r_type.Network.Packet.{
  PacketType, type_code, create_enemy, create_boss, create_player, create_bullet, change, ui_update,
  destroy_player, destroy_enemy, destroy_boss, destroy_bullet,
}
use bee_r_type.Client.{PacketData}
use bee_r_type.Client.Sprites.{
  SpriteType, enemy_type, boss_type, player_type, bullet_type, Graphics, SpriteElement,
}

pub data Kind : Type 0 where
  enemies bosses players bullets : Kind

-- The cases of the switch of `handleServerAction`.
pub data ServerAction : Type 0 where
  creates : Kind → ServerAction
  destroys : Kind → ServerAction
  moves updates_ui ignored : ServerAction

abbrev pub is_code : ℤ → PacketType → Bool
is_code action t = same_ℤ action (pos (type_code t))

unfoldable pub server_action : ℤ → ServerAction
server_action a =
    if is_code a create_enemy
    then creates enemies
    else if is_code a create_boss
    then creates bosses
    else if is_code a create_player
    then creates players
    else if is_code a create_bullet
    then creates bullets
    else if is_code a change
    then moves
    else if is_code a ui_update
    then updates_ui
    else if is_code a destroy_player
    then destroys players
    else if is_code a destroy_enemy
    then destroys enemies
    else if is_code a destroy_boss
    then destroys bosses
    else if is_code a destroy_bullet
    then destroys bullets
    else ignored

module _ ⦃p : Platform⦄ where
  open p use {Real, lit, truncate, Double, truncate_double}

  module _ ⦃g : Graphics p⦄ where
    open g use {
      Sprite, blank, set_texture, set_position, move, Text, blank_text, set_character_size,
      set_fill_color, set_text_position, set_string,
    }

    -- `packet_data` is the client's, which the scene refers to. `game_start` is the reading of the
    -- clock, in microseconds, when the scene was made, and `latency_start` the one of the static
    -- clock of `setStats`.
    pub record GameScene : Type 0 where
      pub bullet_sprites : Table SpriteElement
      pub player_alive_status : Table Bool
      pub player_sprites : Table SpriteElement
      pub server_positions : Table (Real × Real)
      pub enemy_sprites : Table SpriteElement
      pub boss_sprites : Table SpriteElement
      pub scene_sprites : Table SpriteElement
      pub fast_bullet_sprites : Table SpriteElement
      pub ui_sprites : Table Text
      pub new_action : Option PacketType
      pub health : ℤ
      pub score : ℤ
      pub game_start : ℕ
      pub latency_start : Option ℕ
      pub packet_data : PacketData

    unfoldable pub create_sprites :
        SpriteType → PacketData → Table SpriteElement → Table SpriteElement
    create_sprites type d = Table.assign d.server_id (record {
      id = d.server_id;
      hp = pos 100;
      vx = d.new_vx;
      vy = d.new_vy;
      sprite = set_position d.new_x d.new_y (set_texture type blank);
    })

    unfoldable pub destroy_sprite : PacketData → Table SpriteElement → Table SpriteElement
    destroy_sprite d = Table.erase d.server_id

    unfoldable pub update_sprite_position : GameScene → GameScene
    update_sprite_position s =
        let d = s.packet_data in
        elim (Table.find d.server_id s.player_sprites) [
          | none ↦ s
          | some e ↦ record s {
            server_positions = Table.assign e.id (d.new_x, d.new_y) s.server_positions;
            player_sprites =
                Table.assign d.server_id
                  (record e { sprite = set_position d.new_x d.new_y e.sprite }) s.player_sprites;
          }
        ]

    unfoldable pub reset_values : GameScene → GameScene
    reset_values s = record s {
      packet_data = record {
        action = pos 0;
        server_id = pos 0;
        new_x = lit 0;
        new_y = lit 0;
        new_vx = lit 0;
        new_vy = lit 0;
      };
    }

    unfoldable pub update_ui : GameScene → GameScene
    update_ui s = record s {
      health = truncate s.packet_data.new_x;
      score = truncate s.packet_data.new_y;
    }

    unfoldable pub act : ServerAction → GameScene → GameScene
    act (creates enemies) s = record s {
      enemy_sprites = create_sprites enemy_type s.packet_data s.enemy_sprites;
    }
    act (creates bosses) s = record s {
      boss_sprites = create_sprites boss_type s.packet_data s.boss_sprites;
    }
    act (creates players) s = record s {
      player_sprites = create_sprites player_type s.packet_data s.player_sprites;
      player_alive_status = Table.assign s.packet_data.server_id true s.player_alive_status;
    }
    act (creates bullets) s = record s {
      bullet_sprites = create_sprites bullet_type s.packet_data s.bullet_sprites;
    }
    act moves s = update_sprite_position s
    act updates_ui s = update_ui s
    act (destroys players) s = record s {
      player_sprites = destroy_sprite s.packet_data s.player_sprites;
      player_alive_status = Table.assign s.packet_data.server_id false s.player_alive_status;
    }
    act (destroys enemies) s = record s {
      enemy_sprites = destroy_sprite s.packet_data s.enemy_sprites;
    }
    act (destroys bosses) s = record s {
      boss_sprites = destroy_sprite s.packet_data s.boss_sprites;
    }
    act (destroys bullets) s = record s {
      fast_bullet_sprites = destroy_sprite s.packet_data s.fast_bullet_sprites;
    }
    act ignored s = s

    unfoldable pub handle_server_action : GameScene → GameScene
    handle_server_action s = reset_values (act (server_action s.packet_data.action) s)
