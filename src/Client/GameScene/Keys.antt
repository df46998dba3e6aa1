-- ===== src/Client/GameScene/Keys.antt =====
-- Which player's life decides whether a key counts.
use mathlib.Core.Path.{ap₂}
use bee_r_type.Prelude.{
  ℕ, ◌≡◌, ◌≢◌, refl, sym, ap, subst, ◌∙◌, Bool, true, false, not, ◌&&◌, ◌||◌, inl, inr, Option,
  none, some, List, [], ◌∷◌, if◌then◌else◌, Bool-cases, Option-cases, All,
}
use bee_r_type.Prelude.Int.{ℤ, pos}
use bee_r_type.Prelude.Table
use bee_r_type.Prelude.Table.{Table, same_ℤ}
use bee_r_type.Prelude.Table.Laws.{find-assign, at_present, at_missing, same_iff}
use bee_r_type.Platform.{Platform}
use bee_r_type.Network.Packet.{PacketType}
use bee_r_type.Client.Sprites.{
  Graphics, Key, escape_key, Event, closed, key_pressed, mouse_button_pressed, other_event, Window,
}
use bee_r_type.Client.GameScene.{
  GameScene, handle_server_action, render, key_action, press, handle_key_press, handle_event,
  handle_input, update,
}
use bee_r_type.Client.GameScene.Kept.{
  handle_event-packet_data, render-packet_data, handle_server_action-server_id, render_keeps,
  handle_server_action-new_action,
}

abbrev pub or_false : Option Bool → Bool
or_false none = false
or_false (some b) = b

-- The last value that `playerAliveStatus_` took for a player, `false` before the first.
abbrev pub alive : ℤ → Table Bool → Bool
alive i t = or_false (Table.find i t)

at-alive : (i : ℤ) (t : Table Bool) → (Table.at false i t).1 ≡ alive i t
at-alive i t = elim (Option-cases (Table.find i t)) [
  | inl q ↦ rw (at_missing false i t q, q)
  | inr (b, q) ↦ rw (at_present false i t q, q)
]

alive-at : (j i : ℤ) (t : Table Bool) → alive j (Table.at false i t).0 ≡ alive j t
alive-at j i t = elim (Option-cases (Table.find i t)) [
  | inl q ↦
      ap (λ u. alive j u.0) (at_missing false i t q)
      ∙ ap or_false (find-assign j i false t)
      ∙ elim (Bool-cases (same_ℤ i j)) [ inl e ↦ rw (e, ← (same_iff i j).0 e, q) | inr e ↦ rw e ]
  | inr (b, q) ↦ ap (λ u. alive j u.0) (at_present false i t q)
]

and_true : (o : Bool) → o ≡ (o && true)
and_true true = refl
and_true false = refl

and_false : (o : Bool) → false ≡ (o && false)
and_false true = refl
and_false false = refl

and_or : (o i e : Bool) → ((o && not (i || false)) && not e) ≡ (o && not (i || e))
and_or true true e = refl
and_or true false e = refl
and_or false i e = refl

module _ ⦃p : Platform⦄ where
  open p use {Double}

  module _ ⦃g : Graphics p⦄ where
    open g use {Text}

    -- The action that the keys of a frame leave, and whether Escape is among them.
    abbrev pub pressed : List Event → Option PacketType → Option PacketType
    pressed [] old = old
    pressed (key_pressed key ∷ es) old = pressed es (key_action key old)
    pressed (_ ∷ es) old = pressed es old

    abbrev is_escape : Key → Bool
    is_escape escape_key = true
    is_escape _ = false

    abbrev pub escapes : List Event → Bool
    escapes [] = false
    escapes (key_pressed key ∷ es) = is_escape key || escapes es
    escapes (_ ∷ es) = escapes es

    -- What the keys of some events come to, where they count and where they do not.
    pub record Counts (es : List Event) (b : Bool) (s : GameScene) (w : Window)
        (r : GameScene × Window) : Type 0 where
      pub action : r.0.new_action ≡ (if b then pressed es s.new_action else s.new_action)
      pub window : r.1.is_open ≡ (w.is_open && not (b && escapes es))

    press-Counts :
        (b : Bool) (key : Key) (s : GameScene) (w : Window)
        → Counts (key_pressed key ∷ []) b s w (press b key s w)
    unfolding press
    press-Counts false key s w = record { action = refl; window = and_true w.is_open }
    press-Counts true escape_key s w = record { action = refl; window = and_false w.is_open }
    press-Counts true _ s w = record { action = refl; window = and_true w.is_open }

    press-player_alive_status :
        (b : Bool) (key : Key) (s : GameScene) (w : Window)
        → (press b key s w).0.player_alive_status ≡ s.player_alive_status
    unfolding press
    press-player_alive_status false key s w = refl
    press-player_alive_status true key s w = refl

    handle_key_press-alive :
        (key : Key) (s : GameScene) (w : Window) (i : ℤ)
        → alive i (handle_key_press key s w).0.player_alive_status ≡ alive i s.player_alive_status
    unfolding handle_key_press
    handle_key_press-alive key s w i =
        ap (alive i) (press-player_alive_status _ key _ w)
        ∙ alive-at i s.packet_data.server_id s.player_alive_status

    handle_key_press-Counts :
        (key : Key) (s : GameScene) (w : Window)
        → Counts
            (key_pressed key ∷ [])
            (alive s.packet_data.server_id s.player_alive_status)
            s
            w
            (handle_key_press key s w)
    unfolding handle_key_press
    handle_key_press-Counts key s w =
        let (status, b) = Table.at false s.packet_data.server_id s.player_alive_status in
        let c = press-Counts b key (record s { player_alive_status = status }) w in
        let e = at-alive s.packet_data.server_id s.player_alive_status in
        record {
          action = c.action ∙ ap (λ b. if b then key_action key s.new_action else s.new_action) e;
          window = c.window ∙ ap (λ b. w.is_open && not (b && escapes (key_pressed key ∷ []))) e;
        }

    Counts-then :
        (b : Bool) {key : Key} {es : List Event} {s s' : GameScene} {w w' : Window}
        {r : GameScene × Window}
        → Counts (key_pressed key ∷ []) b s w (s', w')
        → Counts es b s' w' r
        → Counts (key_pressed key ∷ es) b s w r
    Counts-then true {key = key} {es = es} {w = w} first rest = record {
      action = rest.action ∙ ap (pressed es) first.action;
      window =
          rest.window
          ∙ ap (λ o. o && not (escapes es)) first.window
          ∙ and_or w.is_open (is_escape key) (escapes es);
    }
    Counts-then false first rest = record {
      action = rest.action ∙ first.action;
      window = rest.window ∙ ap (λ o. o && true) first.window ∙ sym (and_true _);
    }

    handle_input-Counts :
        (es : List Event) (s : GameScene) (w : Window)
        → s.packet_data.server_id ≡ pos 0
        → All (λ e. e ≢ closed) es
        → Counts es (alive (pos 0) s.player_alive_status) s w (handle_input es s w)
    unfolding handle_input handle_event
    handle_input-Counts [] s w h stays = elim (Bool-cases (alive (pos 0) s.player_alive_status)) [
      | inl q ↦ rw q (record { action = refl; window = and_true w.is_open })
      | inr q ↦ rw q (record { action = refl; window = and_true w.is_open })
    ]
    handle_input-Counts (closed ∷ es) s w h stays = absurd (stays.0 refl)
    handle_input-Counts (key_pressed key ∷ es) s w h stays =
        let (s', w') = handle_key_press key s w in
        let same = ap (λ d. d.server_id) (handle_event-packet_data (key_pressed key) s w) in
        let rest = handle_input-Counts es s' w' (same ∙ h) stays.1 in
        let first = handle_key_press-Counts key s w in
        Counts-then (alive (pos 0) s.player_alive_status)
          (subst (λ i. Counts (key_pressed key ∷ []) (alive i s.player_alive_status) s w (s', w')) h
            first)
          (subst (λ b. Counts es b s' w' (handle_input es s' w'))
            (handle_key_press-alive key s w (pos 0)) rest)
    handle_input-Counts (mouse_button_pressed m ∷ es) s w h stays =
        let rest = handle_input-Counts es s w h stays.1 in
        record { action = rest.action; window = rest.window }
    handle_input-Counts (other_event ∷ es) s w h stays =
        let rest = handle_input-Counts es s w h stays.1 in
        record { action = rest.action; window = rest.window }

    -- In a frame in which the window is not closed by its button, the keys count if and only if player 0
    -- is alive once the frame's packet is handled, whichever the client's own player is: if so, the last
    -- key that stands for an action is the frame's action and Escape closes the window; if not, no key
    -- has an effect.
    pub update-Counts :
        (now : ℕ) (ping lost : Double) (es : List Event) (s : GameScene) (w : Window)
        → All (λ e. e ≢ closed) es
        → Counts es
            (alive (pos 0) (handle_server_action s).player_alive_status)
            s
            w
            (update now ping lost es s w)
    unfolding update
    update-Counts now ping lost es s w stays =
        let s' = handle_server_action s in
        let (s'', w'') = render now ping lost s' w in
        let (action, status, window) = render_keeps now ping lost s' w in
        let c =
          handle_input-Counts es s'' w''
            (ap (λ d. d.server_id) (render-packet_data now ping lost s' w)
              ∙ handle_server_action-server_id s)
            stays in
        let start = action ∙ handle_server_action-new_action s in
        let same = ap (alive (pos 0)) status in
        record {
          action = c.action ∙ ap₂ (λ b old. if b then pressed es old else old) same start;
          window = c.window ∙ ap₂ (λ b o. o && not (b && escapes es)) same window;
        }
