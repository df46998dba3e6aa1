-- ===== src/Client/Sprites.antt =====
-- What the scenes of the client share: Client/include/Sprite.hpp, and SFML as an interface.
use bee_r_type.Prelude.{ℕ, ◌≡◌, refl, Bool, false, List, [], ◌∷◌, ◌++◌}
use bee_r_type.Prelude.Int.{ℤ}
use bee_r_type.Prelude.Table.{Table}
use bee_r_type.Prelude.Decimal.{Bytes}
use bee_r_type.Platform.{Platform}

pub data SpriteType : Type 0 where
  enemy_type boss_type player_type bullet_type background_type start_button_type : SpriteType

pub data Color : Type 0 where
  white green red : Color

-- The keys that a scene tells apart.
pub data Key : Type 0 where
  right_key left_key up_key down_key space_key escape_key num_1_key num_2_key other_key : Key

-- SFML: sprites with the texture that was loaded for a type, texts, and positions of the mouse. The
-- font of every text is the one the scene loads.
pub record Graphics (p : Platform) : Type 1 where
  pub Sprite : Type 0
  pub blank : Sprite
  pub set_texture : SpriteType → Sprite → Sprite
  pub set_position : p.Real → p.Real → Sprite → Sprite
  pub move : p.Real → p.Real → Sprite → Sprite
  pub Mouse : Type 0
  -- `getGlobalBounds().contains(position)`.
  pub contains : Sprite → Mouse → Bool
  pub Text : Type 0
  pub blank_text : Text
  pub set_character_size : ℕ → Text → Text
  pub set_fill_color : Color → Text → Text
  pub set_text_position : p.Real → p.Real → Text → Text
  pub set_string : Bytes → Text → Text

module _ ⦃p : Platform⦄ where
  open p use {Real}

  module _ ⦃g : Graphics p⦄ where
    open g use {Sprite, Text, Mouse}

    -- The score and the health bar of the source are never given a value.
    pub record SpriteElement : Type 0 where
      pub id : ℤ
      pub hp : ℤ
      pub vx : Real
      pub vy : Real
      pub sprite : Sprite

    -- `sf::Event`; the position of the mouse is the one read when the event is handled.
    pub data Event : Type 0 where
      closed : Event
      key_pressed : Key → Event
      mouse_button_pressed : Mouse → Event
      other_event : Event

    pub data Drawing : Type 0 where
      sprite_drawn : Sprite → Drawing
      text_drawn : Text → Drawing

    -- The window: whether it is open, what was drawn since `clear`, and what `display` showed last.
    pub record Window : Type 0 where
      pub is_open : Bool
      pub drawn : List Drawing
      pub shown : List Drawing

    abbrev pub close : Window → Window
    close w = record w { is_open = false }

    abbrev pub clear : Window → Window
    clear w = record w { drawn = [] }

    abbrev pub draw : Drawing → Window → Window
    draw d w = record w { drawn = w.drawn ++ d ∷ [] }

    abbrev pub display : Window → Window
    display w = record w { shown = w.drawn }

    -- `for (auto& [id, element] : sprites) window.draw(element.sprite);`
    unfoldable pub draw_each : Table SpriteElement → Window → Window
    draw_each [] w = w
    draw_each ((id, e) ∷ t) w = draw_each t (draw (sprite_drawn e.sprite) w)

    pub draw_each-is_open :
        (t : Table SpriteElement) (w : Window) → (draw_each t w).is_open ≡ w.is_open
    unfolding draw_each
    draw_each-is_open [] w = refl
    draw_each-is_open ((i, e) ∷ t) w = draw_each-is_open t (draw (sprite_drawn e.sprite) w)
