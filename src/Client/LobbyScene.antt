-- ===== src/Client/LobbyScene.antt =====
-- The scene before the game: Client/src/LobbyScene.cpp.
use bee_r_type.Prelude.{
  ℕ, ◌+◌, ◌-◌, ◌/◌, ◌%◌, ◌^◌, Bool, true, false, ◌&&◌, ◌||◌, Option, none, some, List, [], ◌∷◌,
  if◌then◌else◌,
}
use bee_r_type.Prelude.Int.{ℤ, pos}
use bee_r_type.Prelude.Table
use bee_r_type.Prelude.Table.{Table, same_ℤ}
use bee_r_type.Platform.{Platform}
use bee_r_type.Network.Packet.{PacketType, game_start}
use bee_r_type.Client.{PacketData}
use bee_r_type.Client.Sprites.{
  SpriteType, background_type, start_button_type, Graphics, SpriteElement, Event, closed,
  mouse_button_pressed, Window, close, clear, display, draw_each,
}

module _ ⦃p : Platform⦄ where
  open p use {Real, lit}

  module _ ⦃g : Graphics p⦄ where
    open g use {blank, set_texture, set_position, contains, Mouse}

    -- `packet_data` is the client's, which the scene refers to.
    pub record LobbyScene : Type 0 where
      pub scenes : Table SpriteElement
      pub start_button_clicked : Bool
      pub new_action : Option PacketType
      pub packet_data : PacketData

    -- The members that it does not set keep what they had.
    unfoldable pub init_sprite_element :
        SpriteType → Real → Real → ℤ → SpriteElement → SpriteElement
    init_sprite_element type x y id e = record e {
      sprite = set_position x y (set_texture type e.sprite);
      id = id;
    }

    -- Where something of the second size stands in the middle of the first, in unsigned arithmetic.
    abbrev pub centred : ℕ → ℕ → ℕ
    centred outer inner = (outer / 2 + 2 ^ 32 - inner / 2) % 2 ^ 32

    -- `createSprites`, for the sizes of the window and of the button's texture. The sprites of `raw`
    -- are blank, and its other members have no value yet.
    unfoldable pub create_sprites : ℕ → ℕ → ℕ → ℕ → SpriteElement → Table SpriteElement
    unfolding init_sprite_element
    create_sprites width height button_width button_height raw =
        let background = init_sprite_element background_type (lit 0) (lit 0) (pos 1) raw in
        let button =
          init_sprite_element start_button_type (lit (centred width button_width))
            (lit (centred height button_height)) (pos 0) raw in
        Table.assign background.id background (Table.assign button.id button [])

    -- The constructor.
    unfoldable pub new_lobby : ℕ → ℕ → ℕ → ℕ → SpriteElement → PacketData → LobbyScene
    new_lobby width height button_width button_height raw d = record {
      scenes = create_sprites width height button_width button_height raw;
      start_button_clicked = false;
      new_action = none;
      packet_data = d;
    }

    unfoldable pub cleanup : LobbyScene → Window → LobbyScene × Window
    cleanup s w = (record s { scenes = [] }, clear w)

    unfoldable pub start_game : LobbyScene → Window → LobbyScene × Window
    unfolding cleanup
    start_game s w =
        let (s', w') = cleanup (record s { start_button_clicked = false }) w in
        (record s' { new_action = some game_start }, w')

    -- `checkGameStart`; its result is the first component. `packetData_.action` is compared with 3.
    unfoldable pub check_game_start : LobbyScene → Window → Bool × LobbyScene × Window
    check_game_start s w =
        if s.start_button_clicked || same_ℤ s.packet_data.action (pos 3)
        then (let (s', w') = start_game s w in (true, s', w'))
        else (false, s, w)

    unfoldable pub send_over_packets : LobbyScene → LobbyScene × Option PacketType
    send_over_packets s = (record s { new_action = none }, s.new_action)

    -- `setPacketData`: the scene sees what the client holds.
    unfoldable pub set_packet_data : PacketData → LobbyScene → LobbyScene
    set_packet_data d s = record s { packet_data = d }

    -- The loop of `handleMousePressed`, which ends at the first hit of the start button.
    unfoldable pub press_each : Mouse → Table SpriteElement → LobbyScene → LobbyScene
    press_each mouse [] s = s
    press_each mouse ((id, e) ∷ t) s = elim (contains e.sprite mouse && same_ℤ e.id (pos 0)) [
      | true ↦ record s { start_button_clicked = true; new_action = some game_start }
      | false ↦ press_each mouse t s
    ]

    unfoldable pub handle_mouse_pressed : Mouse → LobbyScene → LobbyScene
    handle_mouse_pressed mouse s = press_each mouse s.scenes s

    unfoldable pub handle_event : Event → LobbyScene → Window → LobbyScene × Window
    handle_event closed s w = let (s', w') = cleanup s w in (s', close w')
    handle_event (mouse_button_pressed mouse) s w = (handle_mouse_pressed mouse s, w)
    handle_event _ s w = (s, w)

    unfoldable pub handle_input : List Event → LobbyScene → Window → LobbyScene × Window
    handle_input [] s w = (s, w)
    handle_input (e ∷ es) s w = let (s', w') = handle_event e s w in handle_input es s' w'

    unfoldable pub render : LobbyScene → Window → Window
    render s w = display (draw_each s.scenes (clear w))

    unfoldable pub update : List Event → LobbyScene → Window → LobbyScene × Window
    update events s w =
        let (s', w') = if s.start_button_clicked then cleanup s w else (s, w) in
        let (s'', w'') = handle_input events s' w' in (s'', render s'' w'')
