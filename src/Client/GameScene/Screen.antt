-- ===== src/Client/GameScene/Screen.antt =====
-- What the scene puts on the screen, Client/src/GameScene.cpp: the texts, the drift of the sprites, and the
-- drawing.
use bee_r_type.Prelude.{
  ℕ, ◌+◌, ◌-◌, ◌/◌, ◌%◌, ◌^◌, none, some, [], ◌∷◌, ◌++◌, ltb, leb, if◌then◌else◌, codes,
}
use bee_r_type.Prelude.Int.{ℤ, pos}
use bee_r_type.Prelude.Decimal.{Bytes, to_string, to_string_ℤ}
use bee_r_type.Prelude.Table
use bee_r_type.Prelude.Table.{Table, same_ℤ}
use bee_r_type.Platform.{Platform}
use bee_r_type.Client.Sprites.{
  Color, white, green, red, Graphics, SpriteElement, Window, clear, draw, display, draw_each,
  text_drawn,
}
use bee_r_type.Client.GameScene.Scene.{GameScene}

-- An unsigned difference as `float` coordinate.
abbrev pub unsigned_minus : ℕ → ℕ → ℕ
unsigned_minus a b = (a + 2 ^ 32 - b) % 2 ^ 32

module _ ⦃p : Platform⦄ where
  open p use {Real, lit, truncate, Double, truncate_double}

  module _ ⦃g : Graphics p⦄ where
    open g use {
      Sprite, blank, set_texture, set_position, move, Text, blank_text, set_character_size,
      set_fill_color, set_text_position, set_string,
    }

    abbrev pub text_with : ℕ → Color → Real → Real → Text
    text_with size color x y =
        set_text_position x y (set_fill_color color (set_character_size size blank_text))

    -- `setUI` for a window of the given size: it makes the texts anew, one after the other.
    unfoldable pub set_ui : ℕ → ℕ → Table Text → Table Text
    set_ui width height t =
        Table.assign (pos 4) (text_with 16 white (lit (unsigned_minus width 120)) (lit 30)) (
          Table.assign (pos 3) (text_with 16 white (lit (unsigned_minus width 120)) (lit 10)) (
            Table.assign (pos 2) (text_with 24 red (lit 10) (lit (unsigned_minus height 30))) (
              Table.assign (pos 1)
                (text_with 48 green (lit (unsigned_minus (width / 2) 50)) (lit 10))
                (Table.assign (pos 0) (text_with 24 white (lit 10) (lit 10)) t))))

    -- `uiSprites[id].setString(string)`.
    unfoldable pub set_text : ℤ → Bytes → Table Text → Table Text
    set_text id string t =
        let (t', text) = Table.at blank_text id t in Table.assign id (set_string string text) t'

    abbrev pub time_text : ℕ → Bytes
    time_text seconds =
        codes "Time: "
        ++ to_string (seconds / 60)
        ++ codes ":"
        ++ (if ltb (seconds % 60) 10 then codes "0" else [])
        ++ to_string (seconds % 60)

    -- `setStats`; the readings of the clocks are in microseconds.
    unfoldable pub set_stats : ℕ → Double → Double → GameScene → GameScene
    set_stats now ping lost s =
        let t₁ = set_text (pos 0) (codes "Health: " ++ to_string_ℤ s.health) s.ui_sprites in
        let t₂ = set_text (pos 1) (codes "Score: " ++ to_string_ℤ s.score) t₁ in
        let t₃ = set_text (pos 2) (time_text ((now - s.game_start) / 1_000_000)) t₂ in
        let start : ℕ = elim s.latency_start [ none ↦ now | some t ↦ t ] in
        let late = leb 3_000_000 (now - start) in
        let latency = codes "Latency: " ++ to_string_ℤ (truncate_double ping) ++ codes "ms" in
        let t₄ = if late then set_text (pos 3) latency t₃ else t₃ in
        let loss = codes "Packet Loss: " ++ to_string_ℤ (truncate_double lost) ++ codes "%" in
        record s {
          ui_sprites = set_text (pos 4) loss t₄;
          latency_start = some (if late then now else start);
        }

    abbrev pub drift : SpriteElement → SpriteElement
    drift e = record e { sprite = move e.vx e.vy e.sprite }

    unfoldable pub update_positions : GameScene → GameScene
    update_positions s = record s {
      bullet_sprites = Table.change_all drift s.bullet_sprites;
      enemy_sprites = Table.change_all drift s.enemy_sprites;
      boss_sprites = Table.change_all drift s.boss_sprites;
      fast_bullet_sprites = Table.change_all drift s.fast_bullet_sprites;
    }

    unfoldable pub draw_texts : Table Text → Window → Window
    draw_texts [] w = w
    draw_texts ((id, t) ∷ ts) w = draw_texts ts (draw (text_drawn t) w)

    unfoldable pub draw_sprites : GameScene → Window → Window
    draw_sprites s w = draw_texts s.ui_sprites (
        draw_each s.boss_sprites (
          draw_each s.fast_bullet_sprites (
            draw_each s.bullet_sprites (
              draw_each s.enemy_sprites
                (draw_each s.player_sprites (draw_each s.scene_sprites w))))))

    unfoldable pub render : ℕ → Double → Double → GameScene → Window → GameScene × Window
    render now ping lost s w =
        let s' = set_stats now ping lost (update_positions s) in
        (s', display (draw_sprites s' (clear w)))
