-- ===== src/Client/GameScene/Drawn.antt =====
-- What a frame draws: the sprites that the scene holds, on the window that `display` shows.
use mathlib.Core.List.{Mem, mem-append, mem-cons_self}
use mathlib.Core.Logic.Or
use bee_r_type.Prelude.{
  ℕ, ◌≡◌, ◌≢◌, refl, Bool, true, false, inl, inr, some, List, [], ◌∷◌, All, Bool-cases,
}
use bee_r_type.Prelude.Int.{ℤ}
use bee_r_type.Prelude.Table
use bee_r_type.Prelude.Table.{Table, same_ℤ}
use bee_r_type.Platform.{Platform}
use bee_r_type.Client.Sprites.{
  Graphics, SpriteElement, Drawing, sprite_drawn, draw_each, clear, Window, Event, closed,
  key_pressed, mouse_button_pressed, other_event, Key, escape_key,
}
use bee_r_type.Client.GameScene.{
  Kind, enemies, bosses, players, bullets, GameScene, draw_texts, draw_sprites, render, press,
  handle_key_press, handle_event, handle_input, handle_server_action, update, send_over_packets,
  key_closes,
}
use bee_r_type.Client.GameScene.Held.{sprites}
use bee_r_type.Client.GameScene.Frames.{Frame, run_frame, run_frames}

module _ ⦃p : Platform⦄ where
  open p use {Double}

  module _ ⦃g : Graphics p⦄ where
    open g use {Text}

    draw_each_keeps :
        (d : Drawing) (t : Table SpriteElement) (w : Window)
        → Mem d w.drawn
        → Mem d (draw_each t w).drawn
    unfolding draw_each
    draw_each_keeps d [] w h = h
    draw_each_keeps d ((i, e) ∷ t) w h = draw_each_keeps d t _ (mem-append.1 (Or.inl h))

    draw_texts_keeps :
        (d : Drawing) (t : Table Text) (w : Window) → Mem d w.drawn → Mem d (draw_texts t w).drawn
    unfolding draw_texts
    draw_texts_keeps d [] w h = h
    draw_texts_keeps d ((i, e) ∷ t) w h = draw_texts_keeps d t _ (mem-append.1 (Or.inl h))

    -- All sprites of a table are among some drawings.
    abbrev Among : List Drawing → Table SpriteElement → Type 0
    Among ds t = All (λ x. Mem (sprite_drawn x.1.sprite) ds) t

    Among-mono :
        {ds ds' : List Drawing} (t : Table SpriteElement)
        → ((d : Drawing) → Mem d ds → Mem d ds')
        → Among ds t
        → Among ds' t
    Among-mono [] more h = tt
    Among-mono (x ∷ t) more h = (more _ h.0, Among-mono t more h.1)

    draw_each_draws : (t : Table SpriteElement) (w : Window) → Among (draw_each t w).drawn t
    unfolding draw_each
    draw_each_draws [] w = tt
    draw_each_draws ((i, e) ∷ t) w =
        (draw_each_keeps _ t _ (mem-append.1 (Or.inr mem-cons_self)), draw_each_draws t _)

    draw_sprites_draws :
        (k : Kind) (s : GameScene) (w : Window) → Among (draw_sprites s w).drawn (sprites k s)
    unfolding draw_sprites
    draw_sprites_draws bosses s w =
        Among-mono s.boss_sprites (λ d h. draw_texts_keeps d s.ui_sprites _ h)
          (draw_each_draws s.boss_sprites _)
    draw_sprites_draws bullets s w =
        Among-mono s.bullet_sprites
          (λ d h.
            draw_texts_keeps d s.ui_sprites _
              (draw_each_keeps d s.boss_sprites _ (draw_each_keeps d s.fast_bullet_sprites _ h)))
          (draw_each_draws s.bullet_sprites _)
    draw_sprites_draws enemies s w =
        Among-mono s.enemy_sprites
          (λ d h. draw_texts_keeps d s.ui_sprites _ (
            draw_each_keeps d s.boss_sprites _
              (draw_each_keeps d s.fast_bullet_sprites _ (draw_each_keeps d s.bullet_sprites _ h))))
          (draw_each_draws s.enemy_sprites _)
    draw_sprites_draws players s w =
        Among-mono s.player_sprites
          (λ d h. draw_texts_keeps d s.ui_sprites _ (
            draw_each_keeps d s.boss_sprites _ (
              draw_each_keeps d s.fast_bullet_sprites _
                (draw_each_keeps d s.bullet_sprites _ (draw_each_keeps d s.enemy_sprites _ h)))))
          (draw_each_draws s.player_sprites _)

    -- Every sprite of the kind that the scene holds is in the picture that the window shows.
    abbrev pub IsDrawn : Kind → GameScene × Window → Type 0
    IsDrawn k (s, w) = Among w.shown (sprites k s)

    render-IsDrawn :
        (now : ℕ) (ping lost : Double) (s : GameScene) (w : Window) (k : Kind)
        → IsDrawn k (render now ping lost s w)
    unfolding render
    render-IsDrawn now ping lost s w k = draw_sprites_draws k _ (clear w)

    key_closes_shown : (key : Key) (w : Window) → (key_closes key w).shown ≡ w.shown
    key_closes_shown escape_key w = refl
    key_closes_shown _ w = refl

    press-IsDrawn :
        (b : Bool) (key : Key) (s : GameScene) (w : Window) (k : Kind)
        → IsDrawn k (s, w)
        → IsDrawn k (press b key s w)
    unfolding press
    press-IsDrawn false key s w k h = h
    press-IsDrawn true key s w enemies h = rw key_closes_shown h
    press-IsDrawn true key s w bosses h = rw key_closes_shown h
    press-IsDrawn true key s w players h = rw key_closes_shown h
    press-IsDrawn true key s w bullets h = rw key_closes_shown h

    handle_event-IsDrawn :
        (e : Event) (s : GameScene) (w : Window) (k : Kind)
        → e ≢ closed
        → IsDrawn k (s, w)
        → IsDrawn k (handle_event e s w)
    unfolding handle_event handle_key_press
    handle_event-IsDrawn closed s w k ne h = absurd (ne refl)
    handle_event-IsDrawn (key_pressed key) s w enemies ne h = press-IsDrawn _ key _ w enemies h
    handle_event-IsDrawn (key_pressed key) s w bosses ne h = press-IsDrawn _ key _ w bosses h
    handle_event-IsDrawn (key_pressed key) s w players ne h = press-IsDrawn _ key _ w players h
    handle_event-IsDrawn (key_pressed key) s w bullets ne h = press-IsDrawn _ key _ w bullets h
    handle_event-IsDrawn (mouse_button_pressed m) s w k ne h = h
    handle_event-IsDrawn other_event s w k ne h = h

    handle_input-IsDrawn :
        (es : List Event) (s : GameScene) (w : Window) (k : Kind)
        → All (λ e. e ≢ closed) es
        → IsDrawn k (s, w)
        → IsDrawn k (handle_input es s w)
    unfolding handle_input
    handle_input-IsDrawn [] s w k stays h = h
    handle_input-IsDrawn (e ∷ es) s w k stays h =
        handle_input-IsDrawn es _ _ k stays.1 (handle_event-IsDrawn e s w k stays.0 h)

    update-IsDrawn :
        (now : ℕ) (ping lost : Double) (es : List Event) (s : GameScene) (w : Window) (k : Kind)
        → All (λ e. e ≢ closed) es
        → IsDrawn k (update now ping lost es s w)
    unfolding update
    update-IsDrawn now ping lost es s w k stays =
        handle_input-IsDrawn es _ _ k stays
          (render-IsDrawn now ping lost (handle_server_action s) w k)

    pub run_frame-IsDrawn :
        (f : Frame) (s : GameScene) (w : Window) (k : Kind)
        → All (λ e. e ≢ closed) f.events
        → IsDrawn k (run_frames (f ∷ []) s w)
    unfolding run_frames run_frame send_over_packets
    run_frame-IsDrawn f s w enemies h = update-IsDrawn f.now f.ping f.lost f.events _ w enemies h
    run_frame-IsDrawn f s w bosses h = update-IsDrawn f.now f.ping f.lost f.events _ w bosses h
    run_frame-IsDrawn f s w players h = update-IsDrawn f.now f.ping f.lost f.events _ w players h
    run_frame-IsDrawn f s w bullets h = update-IsDrawn f.now f.ping f.lost f.events _ w bullets h

    -- A sprite that stands in a table under an identifier is one of the table's.
    Among-find :
        {ds : List Drawing} (i : ℤ) (t : Table SpriteElement)
        → Among ds t
        → Table.has i t ≡ true
        → (e : SpriteElement) × (Table.find i t ≡ some e) × Mem (sprite_drawn e.sprite) ds
    unfolding Table.has Table.find
    Among-find i [] h held = absurd (cc)
    Among-find i ((j, e) ∷ t) h held = elim (Bool-cases (same_ℤ j i)) [
      | inl q ↦ (e, rw q, h.0)
      | inr q ↦
          let (e', found, among) = Among-find i t h.1 (rw q at held) in (e', rw (q, found), among)
    ]

    -- A sprite of the kind with the identifier, which the scene holds and the window shows.
    abbrev pub Shows : Kind → ℤ → GameScene × Window → Type 0
    Shows k i (s, w) =
        (e : SpriteElement) × (Table.find i (sprites k s) ≡ some e)
        × Mem (sprite_drawn e.sprite) w.shown

    pub run_frame-Shows :
        (f : Frame) (s : GameScene) (w : Window) (k : Kind) (i : ℤ)
        → All (λ e. e ≢ closed) f.events
        → Table.has i (sprites k (run_frames (f ∷ []) s w).0) ≡ true
        → Shows k i (run_frames (f ∷ []) s w)
    run_frame-Shows f s w k i h held =
        Among-find i (sprites k (run_frames (f ∷ []) s w).0) (run_frame-IsDrawn f s w k h) held
