-- ===== src/Client/MainLoop/Starting.antt =====
-- How the lobby starts the game.
use mathlib.Core.Path.{ap₂}
use bee_r_type.Prelude.{
  ◌≡◌, refl, sym, ap, subst, ◌∙◌, Bool, true, false, ◌&&◌, ◌||◌, inl, inr, none, some, List, [],
  ◌∷◌, ◌⊎◌, if◌then◌else◌, Bool-cases, if_true, if_false,
}
use bee_r_type.Prelude.Int.{pos}
use bee_r_type.Prelude.Table.{Table, same_ℤ}
use bee_r_type.Platform.{Platform}
use bee_r_type.Network.Packet.{game_start}
use bee_r_type.Client.Sprites.{
  Graphics, SpriteElement, Event, closed, key_pressed, mouse_button_pressed, other_event, Window,
}
use bee_r_type.Client.LobbyScene.{
  LobbyScene, press_each, handle_mouse_pressed, handle_event, handle_input, update, cleanup,
  check_game_start, set_packet_data, send_over_packets,
}
use bee_r_type.Client.MainLoop.{Program, Turn, lobby_turn, queue_action}

or_true : (b : Bool) → true ≡ (b || true)
or_true true = refl
or_true false = refl

or_false : (b : Bool) → b ≡ (b || false)
or_false true = refl
or_false false = refl

left_false : (a b : Bool) → (a || b) ≡ false → a ≡ false
left_false true b h = h
left_false false b h = refl

if_same {ℓ} : {A : Type ℓ} {a : A} (b : Bool) → (if b then a else a) ≡ a
if_same true = refl
if_same false = refl

module _ ⦃p : Platform⦄ where
  module _ ⦃g : Graphics p⦄ where
    open g use {contains, Mouse}

    -- The mouse is on an element whose identifier is 0, which is the start button's.
    abbrev pub hits : Mouse → Table SpriteElement → Bool
    hits mouse [] = false
    hits mouse ((id, e) ∷ t) = (contains e.sprite mouse && same_ℤ e.id (pos 0)) || hits mouse t

    -- A press of the button hits the start button, which the close button of the window removes.
    abbrev pub clicks : Table SpriteElement → List Event → Bool
    clicks t [] = false
    clicks t (closed ∷ es) = clicks [] es
    clicks t (mouse_button_pressed mouse ∷ es) = hits mouse t || clicks t es
    clicks t (_ ∷ es) = clicks t es

    abbrev started : Bool → LobbyScene → LobbyScene
    started b s =
        if b then record s { start_button_clicked = true; new_action = some game_start } else s

    press_each_lem :
        (mouse : Mouse) (t : Table SpriteElement) (s : LobbyScene)
        → press_each mouse t s ≡ started (hits mouse t) s
    unfolding press_each
    press_each_lem mouse [] s = refl
    press_each_lem mouse ((id, e) ∷ t) s =
        elim (Bool-cases (contains e.sprite mouse && same_ℤ e.id (pos 0))) [
          | inl q ↦ rw (q, press_each)
          | inr q ↦ rw (q, press_each) (press_each_lem mouse t s)
        ]

    record Polled (es : List Event) (s s' : LobbyScene) : Type 0 where
      clicked : s'.start_button_clicked ≡ (s.start_button_clicked || clicks s.scenes es)
      action : s'.new_action ≡ (if clicks s.scenes es then some game_start else s.new_action)
      packet_data : s'.packet_data ≡ s.packet_data

    started-Polled :
        (b : Bool) (es : List Event) (s s' : LobbyScene)
        → Polled es (started b s) s'
        → (s'.start_button_clicked ≡ (s.start_button_clicked || (b || clicks s.scenes es)))
          × (s'.new_action ≡ (if b || clicks s.scenes es then some game_start else s.new_action))
          × (s'.packet_data ≡ s.packet_data)
    started-Polled true es s s' h = (
      h.clicked ∙ or_true s.start_button_clicked,
      h.action ∙ if_same (clicks s.scenes es),
      h.packet_data,
    )
    started-Polled false es s s' h = (h.clicked, h.action, h.packet_data)

    handle_input-Polled :
        (es : List Event) (s : LobbyScene) (w : Window) → Polled es s (handle_input es s w).0
    unfolding handle_input handle_event cleanup handle_mouse_pressed
    handle_input-Polled [] s w = record {
      clicked = or_false s.start_button_clicked;
      action = refl;
      packet_data = refl;
    }
    handle_input-Polled (closed ∷ es) s w =
        let rest = handle_input-Polled es (cleanup s w).0 _ in
        record { clicked = rest.clicked; action = rest.action; packet_data = rest.packet_data }
    handle_input-Polled (mouse_button_pressed mouse ∷ es) s w =
        let rest : Polled es (started (hits mouse s.scenes) s) _ =
          subst (λ u. Polled es u (handle_input es u w).0) (press_each_lem mouse s.scenes s)
            (handle_input-Polled es (handle_mouse_pressed mouse s) w) in
        let (clicked, action, packet_data) = started-Polled (hits mouse s.scenes) es s _ rest in
        let same = ap (λ u. (handle_input es u w).0) (press_each_lem mouse s.scenes s) in
        record {
          clicked = ap (λ u. u.start_button_clicked) same ∙ clicked;
          action = ap (λ u. u.new_action) same ∙ action;
          packet_data = ap (λ u. u.packet_data) same ∙ packet_data;
        }
    handle_input-Polled (key_pressed key ∷ es) s w =
        let rest = handle_input-Polled es s w in
        record { clicked = rest.clicked; action = rest.action; packet_data = rest.packet_data }
    handle_input-Polled (other_event ∷ es) s w =
        let rest = handle_input-Polled es s w in
        record { clicked = rest.clicked; action = rest.action; packet_data = rest.packet_data }

    -- Neither a click nor an action is waiting.
    abbrev pub IsWaiting : LobbyScene → Type 0
    IsWaiting s = (s.start_button_clicked ≡ false) × (s.new_action ≡ none)

    update-Polled :
        (es : List Event) (s : LobbyScene) (w : Window)
        → s.start_button_clicked ≡ false
        → Polled es s (update es s w).0
    unfolding update
    update-Polled es s w h =
        subst (λ (q : LobbyScene × Window). Polled es s (handle_input es q.0 q.1).0)
          (sym (if_false _ _ h)) (handle_input-Polled es s w)

    abbrev starts : LobbyScene → Bool
    starts s = s.start_button_clicked || same_ℤ s.packet_data.action (pos 3)

    check_game_start_result : (s : LobbyScene) (w : Window) → (check_game_start s w).0 ≡ starts s
    unfolding check_game_start
    check_game_start_result s w = elim (Bool-cases (starts s)) [
      | inl q ↦ ap (λ (r : Bool × LobbyScene × Window). r.0) (if_true _ _ q) ∙ sym q
      | inr q ↦ ap (λ (r : Bool × LobbyScene × Window). r.0) (if_false _ _ q) ∙ sym q
    ]

    check_game_start_waits :
        (s : LobbyScene) (w : Window) → starts s ≡ false → (check_game_start s w).1 ≡ s
    unfolding check_game_start
    check_game_start_waits s w h = ap (λ (r : Bool × LobbyScene × Window). r.1) (if_false _ _ h)

    -- In the lobby, where nothing is waiting, the client queues GAME_START if and only if the start
    -- button is clicked, and queues nothing else. The game starts in that iteration or in one that finds
    -- the packet GAME_START of the server, for which the client queues nothing. Otherwise nothing is
    -- waiting afterwards either.
    pub lobby_turn_lem :
        (t : Turn) (m : Program)
        → IsWaiting m.lobby
        → let m' = lobby_turn t m in
          let clicked = clicks m.lobby.scenes t.lobby_events in
          (m'.client ≡ queue_action (if clicked then some game_start else none) m.client)
          × (m'.is_game_started ≡ (clicked || same_ℤ m.client.packet_data.action (pos 3)))
          × ((m'.is_game_started ≡ true) ⊎ IsWaiting m'.lobby)
    unfolding lobby_turn set_packet_data send_over_packets
    lobby_turn_lem t m h =
        let s = set_packet_data m.client.packet_data m.lobby in
        let r = update t.lobby_events s m.window in
        let polled = update-Polled t.lobby_events s m.window h.0 in
        let clicked = polled.clicked ∙ ap (λ b. b || clicks m.lobby.scenes t.lobby_events) h.0 in
        let s' = (send_over_packets r.0).0 in
        let result = check_game_start_result s' r.1 in
        (
          ap (λ a. queue_action a m.client)
              (polled.action
                ∙ ap (λ a. if clicks m.lobby.scenes t.lobby_events then some game_start else a)
                    h.1),
          result ∙ ap₂ (λ b d. b || same_ℤ d.action (pos 3)) clicked polled.packet_data,
          elim (Bool-cases (starts s')) [
            | inl q ↦ inl (result ∙ q)
            | inr q ↦
                let same = check_game_start_waits s' r.1 q in
                inr (
                  ap (λ u. u.start_button_clicked) same ∙ left_false _ _ q,
                  ap (λ u. u.new_action) same,
                )
          ],
        )
