-- ===== src/Client/MainLoop/Closing.antt =====
-- The close button of the window.
use mathlib.Core.Path.{ap₂}
use bee_r_type.Client.MainLoop.Ends.{after_io-window, step_lem}
use bee_r_type.Prelude.{
  if_true, if_false, ◌≡◌, refl, sym, ap, ◌∙◌, Bool, true, false, inl, inr, List, [], ◌∷◌,
  if◌then◌else◌, Bool-cases, ok, ◌&&◌, ◌||◌,
}
use bee_r_type.Prelude.Int.{pos}
use bee_r_type.Prelude.Table.{same_ℤ}
use bee_r_type.Platform.{Platform}
use bee_r_type.Client.Sprites.{
  Graphics, Key, escape_key, Event, closed, key_pressed, mouse_button_pressed, other_event, Window,
  draw_each-is_open,
}
use bee_r_type.Client.GameScene
use bee_r_type.Client.GameScene.{GameScene, press}
use bee_r_type.Client.LobbyScene
use bee_r_type.Client.LobbyScene.{LobbyScene}
use bee_r_type.Client.MainLoop.{
  Program, Turn, returned, game_part, lobby_part, iterate, after_io, main_loop, and_then, game_turn,
  lobby_turn,
}

and_false : (b : Bool) → (b && false) ≡ false
and_false true = refl
and_false false = refl

module _ ⦃p : Platform⦄ where
  module _ ⦃g : Graphics p⦄ where
    abbrev pub closes : List Event → Bool
    closes [] = false
    closes (closed ∷ es) = true
    closes (_ ∷ es) = closes es

    press_shut :
        (b : Bool) (key : Key) (s : GameScene) (w : Window)
        → w.is_open ≡ false
        → (press b key s w).1.is_open ≡ false
    unfolding press
    press_shut false key s w h = h
    press_shut true escape_key s w h = refl
    press_shut true _ s w h = h

    game_shut :
        (es : List Event) (s : GameScene) (w : Window)
        → w.is_open ≡ false
        → (GameScene.handle_input es s w).1.is_open ≡ false
    unfolding GameScene.handle_input GameScene.handle_event GameScene.handle_key_press
        GameScene.handle_closed
    game_shut [] s w h = h
    game_shut (closed ∷ es) s w h = game_shut es _ _ refl
    game_shut (key_pressed key ∷ es) s w h = game_shut es _ _ (press_shut _ key _ w h)
    game_shut (mouse_button_pressed m ∷ es) s w h = game_shut es s w h
    game_shut (other_event ∷ es) s w h = game_shut es s w h

    game_closes :
        (es : List Event) (s : GameScene) (w : Window)
        → closes es ≡ true
        → (GameScene.handle_input es s w).1.is_open ≡ false
    unfolding GameScene.handle_input GameScene.handle_event GameScene.handle_closed
    game_closes [] s w h = cc
    game_closes (closed ∷ es) s w h = game_shut es _ _ refl
    game_closes (key_pressed key ∷ es) s w h = game_closes es _ _ h
    game_closes (mouse_button_pressed m ∷ es) s w h = game_closes es s w h
    game_closes (other_event ∷ es) s w h = game_closes es s w h

    lobby_shut :
        (es : List Event) (s : LobbyScene) (w : Window)
        → w.is_open ≡ false
        → (LobbyScene.handle_input es s w).1.is_open ≡ false
    unfolding LobbyScene.handle_input LobbyScene.handle_event
    lobby_shut [] s w h = h
    lobby_shut (closed ∷ es) s w h = lobby_shut es _ _ refl
    lobby_shut (mouse_button_pressed m ∷ es) s w h = lobby_shut es _ w h
    lobby_shut (key_pressed key ∷ es) s w h = lobby_shut es s w h
    lobby_shut (other_event ∷ es) s w h = lobby_shut es s w h

    lobby_closes :
        (es : List Event) (s : LobbyScene) (w : Window)
        → closes es ≡ true
        → (LobbyScene.handle_input es s w).1.is_open ≡ false
    unfolding LobbyScene.handle_input LobbyScene.handle_event
    lobby_closes [] s w h = cc
    lobby_closes (closed ∷ es) s w h = lobby_shut es _ _ refl
    lobby_closes (mouse_button_pressed m ∷ es) s w h = lobby_closes es _ w h
    lobby_closes (key_pressed key ∷ es) s w h = lobby_closes es s w h
    lobby_closes (other_event ∷ es) s w h = lobby_closes es s w h

    -- The scene that polls the events of a turn.
    abbrev pub polled : Turn → Program → List Event
    polled t m = if m.is_game_started then t.game_events else t.lobby_events

    game_turn-closes :
        (t : Turn) (m : Program)
        → closes t.game_events ≡ true
        → (game_turn t m).window.is_open ≡ false
    unfolding game_turn GameScene.update
    game_turn-closes t m h = game_closes t.game_events _ _ h

    check_game_start-is_open :
        (s : LobbyScene) (w : Window) → (LobbyScene.check_game_start s w).2.is_open ≡ w.is_open
    unfolding LobbyScene.check_game_start LobbyScene.start_game LobbyScene.cleanup
    check_game_start-is_open s w =
        elim (Bool-cases (s.start_button_clicked || same_ℤ s.packet_data.action (pos 3))) [
          | inl q ↦ rw q
          | inr q ↦ rw q
        ]

    lobby_turn-closes :
        (t : Turn) (m : Program)
        → closes t.lobby_events ≡ true
        → (lobby_turn t m).window.is_open ≡ false
    unfolding lobby_turn LobbyScene.update LobbyScene.render
    lobby_turn-closes t m h =
        check_game_start-is_open _ _ ∙ draw_each-is_open _ _ ∙ lobby_closes t.lobby_events _ _ h

    game_part_shut :
        (t : Turn) (m : Program) → m.window.is_open ≡ false → (game_part t m).window.is_open ≡ false
    game_part_shut t m h =
        ap (λ n. n.window.is_open)
          (if_false (game_turn t m) m
            (ap (λ o. m.is_game_started && o) h ∙ and_false m.is_game_started))
        ∙ h

    both_shut :
        (t : Turn) (m : Program)
        → m.window.is_open ≡ true
        → closes (polled t m) ≡ true
        → (game_part t (lobby_part t m)).window.is_open ≡ false
    both_shut t m opened h = elim (Bool-cases m.is_game_started) [
      | inl q ↦
          ap (λ n. (game_part t n).window.is_open) (if_true m (lobby_turn t m) q)
          ∙ ap (λ n. n.window.is_open) (if_true (game_turn t m) m (ap₂ (λ a b. a && b) q opened))
          ∙ game_turn-closes t m (sym (ap closes (if_true _ t.lobby_events q)) ∙ h)
      | inr q ↦
          ap (λ n. (game_part t n).window.is_open) (if_false m (lobby_turn t m) q)
          ∙ game_part_shut t (lobby_turn t m)
              (lobby_turn-closes t m (sym (ap closes (if_false t.game_events _ q)) ∙ h))
    ]

    iterate_shut :
        (t : Turn) (m : Program)
        → same_ℤ m.client.packet_data.action (pos 30) ≡ false
        → (game_part t (lobby_part t m)).window.is_open ≡ false
        → (m' : Program) × (iterate t m ≡ returned 0 m')
    unfolding iterate
    iterate_shut t m action shut = (_, if_false _ _ action ∙ if_false _ _ shut)

    -- When the scene that is shown polls the close button, `main_loop` returns 0 from that iteration,
    -- unless the client holds GAME_STARTED or the other thread has ended the process.
    pub main_loop-closed :
        (t : Turn) (ts : List Turn) (m m' : Program)
        → m.window.is_open ≡ true
        → after_io t m ≡ ok m'
        → same_ℤ m'.client.packet_data.action (pos 30) ≡ false
        → closes (polled t m') ≡ true
        → (m'' : Program) × (main_loop (t ∷ ts) m ≡ returned 0 m'')
    unfolding main_loop
    main_loop-closed t ts m m' opened io action h =
        let shown = ap (λ w. w.is_open) (after_io-window t m m' io) ∙ opened in
        let (m'', e) = iterate_shut t m' action (both_shut t m' shown h) in
        (m'', ap (λ o. and_then o (main_loop ts)) (step_lem t m m' opened io ∙ e))
