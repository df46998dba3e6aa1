-- ===== src/Client/GameScene/Kept.antt =====
-- What the steps of a frame leave as it is: the packet, the action that a key left, the window.
use bee_r_type.Prelude.{ℕ, ◌≡◌, refl, ◌∙◌, Bool, true, false, inl, inr, [], ◌∷◌, Option-cases}
use bee_r_type.Prelude.Int.{pos}
use bee_r_type.Prelude.Table
use bee_r_type.Prelude.Table.{Table, same_ℤ}
use bee_r_type.Platform.{Platform}
use bee_r_type.Client.Sprites.{
  Graphics, Key, draw_each-is_open, draw, clear, text_drawn, Event, closed, key_pressed, Window,
}
use bee_r_type.Client.GameScene.{
  GameScene, handle_server_action, render, set_stats, update_positions, press, handle_key_press,
  handle_event, draw_texts, draw_sprites, update_sprite_position, act, handle_closed, end_game,
  update_ui, reset_values, server_action, ServerAction, creates, destroys, moves, enemies, bosses,
  players, bullets,
}

module _ ⦃p : Platform⦄ where
  open p use {Double}

  module _ ⦃g : Graphics p⦄ where
    open g use {Text}

    press-packet_data :
        (b : Bool) (key : Key) (s : GameScene) (w : Window)
        → (press b key s w).0.packet_data ≡ s.packet_data
    unfolding press
    press-packet_data false key s w = refl
    press-packet_data true key s w = refl

    end_game-packet_data : (b : Bool) (s : GameScene) → (end_game b s).packet_data ≡ s.packet_data
    unfolding end_game
    end_game-packet_data false s = refl
    end_game-packet_data true s = refl

    pub handle_event-packet_data :
        (e : Event) (s : GameScene) (w : Window)
        → (handle_event e s w).0.packet_data ≡ s.packet_data
    unfolding handle_event handle_key_press handle_closed
    handle_event-packet_data closed s w = end_game-packet_data _ _
    handle_event-packet_data (key_pressed key) s w = press-packet_data _ key _ w
    handle_event-packet_data _ s w = refl

    pub render-packet_data :
        (now : ℕ) (ping lost : Double) (s : GameScene) (w : Window)
        → (render now ping lost s w).0.packet_data ≡ s.packet_data
    unfolding render set_stats update_positions
    render-packet_data now ping lost s w = refl

    pub handle_server_action-server_id :
        (s : GameScene) → (handle_server_action s).packet_data.server_id ≡ pos 0
    unfolding handle_server_action reset_values
    handle_server_action-server_id s = refl

    draw_texts-is_open : (t : Table Text) (w : Window) → (draw_texts t w).is_open ≡ w.is_open
    unfolding draw_texts
    draw_texts-is_open [] w = refl
    draw_texts-is_open ((i, e) ∷ t) w = draw_texts-is_open t (draw (text_drawn e) w)

    draw_sprites-is_open : (s : GameScene) (w : Window) → (draw_sprites s w).is_open ≡ w.is_open
    unfolding draw_sprites
    draw_sprites-is_open s w =
        draw_texts-is_open s.ui_sprites _
        ∙ draw_each-is_open s.boss_sprites _
        ∙ draw_each-is_open s.fast_bullet_sprites _
        ∙ draw_each-is_open s.bullet_sprites _
        ∙ draw_each-is_open s.enemy_sprites _
        ∙ draw_each-is_open s.player_sprites _
        ∙ draw_each-is_open s.scene_sprites w

    pub render_keeps :
        (now : ℕ) (ping lost : Double) (s : GameScene) (w : Window)
        → let r = render now ping lost s w in
          (r.0.new_action ≡ s.new_action)
          × (r.0.player_alive_status ≡ s.player_alive_status)
          × (r.1.is_open ≡ w.is_open)
    unfolding render set_stats update_positions
    render_keeps now ping lost s w = (refl, refl, draw_sprites-is_open _ (clear w))

    update_sprite_position-new_action :
        (s : GameScene) → (update_sprite_position s).new_action ≡ s.new_action
    unfolding update_sprite_position
    update_sprite_position-new_action s =
        elim (Option-cases (Table.find s.packet_data.server_id s.player_sprites)) [
          | inl q ↦ rw (q, update_sprite_position)
          | inr (e, q) ↦ rw (q, update_sprite_position)
        ]

    act-new_action : (a : ServerAction) (s : GameScene) → (act a s).new_action ≡ s.new_action
    unfolding act update_ui
    act-new_action (creates enemies) s = refl
    act-new_action (creates bosses) s = refl
    act-new_action (creates players) s = refl
    act-new_action (creates bullets) s = refl
    act-new_action (destroys enemies) s = refl
    act-new_action (destroys bosses) s = refl
    act-new_action (destroys players) s = refl
    act-new_action (destroys bullets) s = refl
    act-new_action moves s = update_sprite_position-new_action s
    act-new_action _ s = refl

    pub handle_server_action-new_action :
        (s : GameScene) → (handle_server_action s).new_action ≡ s.new_action
    unfolding handle_server_action reset_values
    handle_server_action-new_action s = act-new_action (server_action s.packet_data.action) s
