-- ===== src/Client/GameScene/Held.antt =====
-- The sprites that the scene holds in its tables, against a replay of what the server announced.
use mathlib.Core.Path.{fun_ext}
use bee_r_type.Prelude.{
  ℕ, ◌≡◌, refl, ap, ◌∙◌, Bool, true, false, inl, inr, List, [], ◌∷◌, if◌then◌else◌, Bool-cases,
  Option-cases,
}
use bee_r_type.Prelude.Int.{ℤ, pos}
use bee_r_type.Prelude.Table
use bee_r_type.Prelude.Table.{Table, same_ℤ, has}
use bee_r_type.Prelude.Table.Laws.{has-erase, has-assign, has-change_all, has-assign_present}
use bee_r_type.Platform.{Platform}
use bee_r_type.Client.Sprites.{Graphics, Key, SpriteElement, Event, closed, key_pressed, Window}
use bee_r_type.Client.GameScene.{
  Kind, enemies, bosses, players, bullets, ServerAction, creates, destroys, moves, updates_ui,
  ignored, server_action, GameScene, act, handle_server_action, reset_values, create_sprites,
  destroy_sprite, update_sprite_position, update_ui, update_positions, set_stats, render,
  handle_event, handle_closed, handle_key_press, press, end_game, handle_input, update,
}
use bee_r_type.Client.GameScene.Kept.{
  handle_event-packet_data, render-packet_data, handle_server_action-server_id,
}

-- A set of identifiers for each kind.
abbrev pub World : Type 0
World = Kind → ℤ → Bool

abbrev pub change_kind : Kind → (ℤ → Bool) → World → World
change_kind enemies f w enemies = f
change_kind bosses f w bosses = f
change_kind players f w players = f
change_kind bullets f w bullets = f
change_kind _ f w k = w k

abbrev pub with_id : ℤ → Bool → (ℤ → Bool) → ℤ → Bool
with_id i b f j = if same_ℤ i j then b else f j

-- What an announcement of the server does; the end of a bullet does nothing.
abbrev pub announce : ServerAction → ℤ → World → World
announce (creates k) i w = change_kind k (with_id i true (w k)) w
announce (destroys bullets) i w = w
announce (destroys k) i w = change_kind k (with_id i false (w k)) w
announce _ i w = w

module _ ⦃p : Platform⦄ where
  open p use {Real, Double}

  module _ ⦃g : Graphics p⦄ where
    abbrev pub sprites : Kind → GameScene → Table SpriteElement
    sprites enemies s = s.enemy_sprites
    sprites bosses s = s.boss_sprites
    sprites players s = s.player_sprites
    sprites bullets s = s.bullet_sprites

    -- The identifiers under which the scene holds a sprite of the kind.
    abbrev pub holds : GameScene → World
    holds s k i = has i (sprites k s)

    -- Closing the window takes player 0 away: the packet's identifier is reset by then.
    abbrev pub after_event : Event → World → World
    after_event closed w = change_kind players (with_id (pos 0) false (w players)) w
    after_event _ w = w

    abbrev pub after_events : List Event → World → World
    after_events [] w = w
    after_events (e ∷ es) w = after_events es (after_event e w)

    holds-update_sprite_position :
        (s : GameScene) (k : Kind) (i : ℤ) → holds (update_sprite_position s) k i ≡ holds s k i
    unfolding update_sprite_position
    holds-update_sprite_position s k i =
        elim (Option-cases (Table.find s.packet_data.server_id s.player_sprites)) [
          | inl q ↦ rw (q, update_sprite_position)
          | inr (e, q) ↦ elim k as (λ k. holds (update_sprite_position s) k i ≡ holds s k i) [
            | players ↦ rw (q, update_sprite_position) (has-assign_present i _ _ s.player_sprites q)
            | _ ↦ rw (q, update_sprite_position)
          ]
        ]

    holds-act :
        (a : ServerAction) (s : GameScene) (k : Kind) (i : ℤ)
        → holds (act a s) k i ≡ announce a s.packet_data.server_id (holds s) k i
    unfolding act create_sprites destroy_sprite update_ui
    holds-act (creates enemies) s enemies i = has-assign i _ _ _
    holds-act (creates bosses) s bosses i = has-assign i _ _ _
    holds-act (creates players) s players i = has-assign i _ _ _
    holds-act (creates bullets) s bullets i = has-assign i _ _ _
    holds-act (destroys enemies) s enemies i = has-erase i _ _
    holds-act (destroys bosses) s bosses i = has-erase i _ _
    holds-act (destroys players) s players i = has-erase i _ _
    holds-act moves s k i = holds-update_sprite_position s k i
    holds-act (creates enemies) s _ i = refl
    holds-act (creates bosses) s _ i = refl
    holds-act (creates players) s _ i = refl
    holds-act (creates bullets) s _ i = refl
    holds-act (destroys enemies) s _ i = refl
    holds-act (destroys bosses) s _ i = refl
    holds-act (destroys players) s _ i = refl
    holds-act (destroys bullets) s enemies i = refl
    holds-act (destroys bullets) s _ i = refl
    holds-act updates_ui s enemies i = refl
    holds-act updates_ui s _ i = refl
    holds-act ignored s _ i = refl

    holds-update_positions :
        (s : GameScene) (k : Kind) (i : ℤ) → holds (update_positions s) k i ≡ holds s k i
    unfolding update_positions
    holds-update_positions s players i = refl
    holds-update_positions s enemies i = has-change_all i _ _
    holds-update_positions s bosses i = has-change_all i _ _
    holds-update_positions s bullets i = has-change_all i _ _

    holds-set_stats :
        (now : ℕ) (ping lost : Double) (s : GameScene) (k : Kind) (i : ℤ)
        → holds (set_stats now ping lost s) k i ≡ holds s k i
    unfolding set_stats
    holds-set_stats now ping lost s enemies i = refl
    holds-set_stats now ping lost s _ i = refl

    holds-press :
        (b : Bool) (key : Key) (s : GameScene) (w : Window) (k : Kind) (i : ℤ)
        → holds (press b key s w).0 k i ≡ holds s k i
    unfolding press
    holds-press false key s w k i = refl
    holds-press true key s w enemies i = refl
    holds-press true key s w _ i = refl

    holds-end_game :
        (b : Bool) (s : GameScene) (k : Kind) (i : ℤ) → holds (end_game b s) k i ≡ holds s k i
    unfolding end_game
    holds-end_game false s k i = refl
    holds-end_game true s enemies i = refl
    holds-end_game true s _ i = refl

    erase_twice :
        (i id : ℤ) (t : Table SpriteElement)
        → id ≡ pos 0
        → has i (Table.erase id (Table.erase id t)) ≡ with_id (pos 0) false (λ j. has j t) i
    erase_twice i id t h =
        has-erase i id _
        ∙ rw (h, has-erase i (pos 0) t)
            (elim (Bool-cases (same_ℤ (pos 0) i)) [ inl q ↦ rw q | inr q ↦ rw q ])

    holds-handle_event :
        (e : Event) (s : GameScene) (w : Window)
        → s.packet_data.server_id ≡ pos 0
        → (k : Kind) (i : ℤ) → holds (handle_event e s w).0 k i ≡ after_event e (holds s) k i
    unfolding handle_event handle_key_press handle_closed destroy_sprite
    holds-handle_event closed s w h players i = holds-end_game _ _ players i ∙ erase_twice i _ _ h
    holds-handle_event closed s w h enemies i = holds-end_game _ _ enemies i
    holds-handle_event closed s w h bosses i = holds-end_game _ _ bosses i
    holds-handle_event closed s w h bullets i = holds-end_game _ _ bullets i
    holds-handle_event (key_pressed key) s w h enemies i = holds-press _ key _ w enemies i
    holds-handle_event (key_pressed key) s w h bosses i = holds-press _ key _ w bosses i
    holds-handle_event (key_pressed key) s w h players i = holds-press _ key _ w players i
    holds-handle_event (key_pressed key) s w h bullets i = holds-press _ key _ w bullets i
    holds-handle_event _ s w h k i = refl

    holds-handle_input :
        (es : List Event) (s : GameScene) (w : Window)
        → s.packet_data.server_id ≡ pos 0
        → holds (handle_input es s w).0 ≡ after_events es (holds s)
    unfolding handle_input
    holds-handle_input [] s w h = refl
    holds-handle_input (e ∷ es) s w h =
        let (s', w') = handle_event e s w in
        holds-handle_input es s' w' (ap (λ d. d.server_id) (handle_event-packet_data e s w) ∙ h)
        ∙ ap (after_events es) (fun_ext λ k. fun_ext λ i. holds-handle_event e s w h k i)

    holds-render :
        (now : ℕ) (ping lost : Double) (s : GameScene) (w : Window) (k : Kind) (i : ℤ)
        → holds (render now ping lost s w).0 k i ≡ holds s k i
    unfolding render
    holds-render now ping lost s w k i =
        holds-set_stats now ping lost (update_positions s) k i ∙ holds-update_positions s k i

    holds-reset_values :
        (s : GameScene) (k : Kind) (i : ℤ) → holds (reset_values s) k i ≡ holds s k i
    unfolding reset_values
    holds-reset_values s enemies i = refl
    holds-reset_values s _ i = refl

    holds-handle_server_action :
        (s : GameScene) (k : Kind) (i : ℤ)
        → holds (handle_server_action s) k i
          ≡ announce (server_action s.packet_data.action) s.packet_data.server_id (holds s) k i
    unfolding handle_server_action
    holds-handle_server_action s k i =
        let a = server_action s.packet_data.action in
        holds-reset_values (act a s) k i ∙ holds-act a s k i

    -- What the scene holds after one frame, for the packet and the events that it handles.
    pub holds-update :
        (now : ℕ) (ping lost : Double) (es : List Event) (s : GameScene) (w : Window)
        → holds (update now ping lost es s w).0
          ≡ after_events es
              (announce (server_action s.packet_data.action) s.packet_data.server_id (holds s))
    unfolding update
    holds-update now ping lost es s w =
        let s' = handle_server_action s in
        let (s'', w'') = render now ping lost s' w in
        holds-handle_input es s'' w'' (
          ap (λ d. d.server_id) (render-packet_data now ping lost s' w)
          ∙ handle_server_action-server_id s)
        ∙ ap (after_events es) (
            fun_ext λ k.
              fun_ext λ i. holds-render now ping lost s' w k i ∙ holds-handle_server_action s k i)
