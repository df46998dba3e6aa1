-- ===== src/Client/GameScene/Announced.antt =====
-- From the server's announcement through the datagram and the parser to the sprites of the next frame.
use mathlib.Core.Path.{ap₂}
use bee_r_type.Prelude.{
  ℕ, ◌+◌, ◌^◌, ◌<◌, ◌≤◌, ◌≡◌, ◌≢◌, refl, sym, ap, ◌∙◌, Bool, true, false, List, [], ◌∷◌, All, ok,
  if_true,
}
use bee_r_type.Prelude.Int.{ℤ, pos}
use bee_r_type.Prelude.Table.{same_ℤ}
use bee_r_type.Prelude.Table.Laws.{same_iff}
use bee_r_type.Prelude.Decimal.{Bytes, stoi}
use bee_r_type.Platform.{Platform}
use bee_r_type.Network.Packet.{PacketType, type_code, heartbeat}
use bee_r_type.Server
use bee_r_type.Server.{Server, success}
use bee_r_type.Client.{Client, PacketData, handle_receive}
use bee_r_type.Client.Parsing.{IsPlain, join, parse-create_packet}
use bee_r_type.Client.Sprites.{
  Graphics, Event, closed, key_pressed, mouse_button_pressed, other_event, Window,
}
use bee_r_type.Client.GameScene.{
  Kind, enemies, bosses, players, bullets, ServerAction, creates, destroys, ignored, server_action,
  GameScene,
}
use bee_r_type.Client.GameScene.Held.{World, announce, holds, after_events}
use bee_r_type.Client.GameScene.Drawn.{Shows, run_frame-Shows}
use bee_r_type.Client.GameScene.Frames.{Frame, run_frames, holds-run_frames}

same_self : (i : ℤ) → same_ℤ i i ≡ true
same_self i = (same_iff i i).1 refl

announce-creates : (k : Kind) (i : ℤ) (v : World) → announce (creates k) i v k i ≡ true
announce-creates enemies i v = if_true _ _ (same_self i)
announce-creates bosses i v = if_true _ _ (same_self i)
announce-creates players i v = if_true _ _ (same_self i)
announce-creates bullets i v = if_true _ _ (same_self i)

announce-destroys :
    (k : Kind) (i : ℤ) (v : World) → k ≢ bullets → announce (destroys k) i v k i ≡ false
announce-destroys enemies i v h = if_true _ _ (same_self i)
announce-destroys bosses i v h = if_true _ _ (same_self i)
announce-destroys players i v h = if_true _ _ (same_self i)
announce-destroys bullets i v h = absurd (h refl)

heartbeat-ignored : server_action (pos (type_code heartbeat)) ≡ ignored
unfolding server_action
heartbeat-ignored = refl

not_heartbeat :
    (t : PacketType) {a : ServerAction}
    → server_action (pos (type_code t)) ≡ a
    → a ≢ ignored
    → t ≢ heartbeat
not_heartbeat t h ne e =
    ne (sym h ∙ ap (λ u. server_action (pos (type_code u))) e ∙ heartbeat-ignored)

module _ ⦃p : Platform⦄ where
  open p use {Real, parse_real}

  -- Five texts in which the client reads the values of some packet data.
  pub record Reads (d₀ d₁ d₂ d₃ d₄ : Bytes) (d : PacketData) : Type 0 where
    pub plain : All IsPlain (d₀ ∷ d₁ ∷ d₂ ∷ d₃ ∷ d₄ ∷ [])
    pub id : stoi d₀ ≡ ok d.server_id
    pub x : parse_real d₁ ≡ ok d.new_x
    pub y : parse_real d₂ ≡ ok d.new_y
    pub vx : parse_real d₃ ≡ ok d.new_vx
    pub vy : parse_real d₄ ≡ ok d.new_vy

  received :
      (t : PacketType) (d₀ d₁ d₂ d₃ d₄ : Bytes) (d : PacketData) (s : Server) (c : Client)
      (now last : ℕ)
      → t ≢ heartbeat
      → Reads d₀ d₁ d₂ d₃ d₄ d
      → s.sequence_number + 1 < 2 ^ 31
      → c.last_packet_number ≡ pos last
      → last ≤ s.sequence_number
      → let message = (Server.create_packet t (join (d₀ ∷ d₁ ∷ d₂ ∷ d₃ ∷ []) d₄) s).1 in
        (c' : Client) × (handle_receive success now message c ≡ ok c')
        × (c'.packet_data ≡ record d { action = pos (type_code t) })
  unfolding handle_receive
  received t d₀ d₁ d₂ d₃ d₄ d s c now last ne r room e le = (
    _,
    parse-create_packet t d₀ d₁ d₂ d₃ d₄ d.server_id d.new_x d.new_y d.new_vx d.new_vy s
        (record c { packets_received = c.packets_received + 1 }) now last ne r.plain r.id r.x r.y
        r.vx r.vy room e le,
    refl,
  )

  module _ ⦃g : Graphics p⦄ where
    after_events_open :
        (es : List Event) (v : World) → All (λ e. e ≢ closed) es → after_events es v ≡ v
    after_events_open [] v h = refl
    after_events_open (closed ∷ es) v h = absurd (h.0 refl)
    after_events_open (key_pressed key ∷ es) v h = after_events_open es v h.1
    after_events_open (mouse_button_pressed m ∷ es) v h = after_events_open es v h.1
    after_events_open (other_event ∷ es) v h = after_events_open es v h.1

    -- A frame with packet data of some action, in which the window is not closed.
    frame_announces :
        (f : Frame) (s : GameScene) (w : Window) (a : ServerAction) (k : Kind) (i : ℤ) (b : Bool)
        → All (λ e. e ≢ closed) f.events
        → server_action f.packet.action ≡ a
        → f.packet.server_id ≡ i
        → announce a i (holds s) k i ≡ b
        → holds (run_frames (f ∷ []) s w).0 k i ≡ b
    frame_announces f s w a k i b stays ha hi h =
        ap (λ v. v k i) (holds-run_frames (f ∷ []) s w ∙ after_events_open f.events _ stays)
        ∙ ap₂ (λ a' j. announce a' j (holds s) k i) ha hi
        ∙ h

    -- A datagram with a packet of the server, and the next frame of the client.
    told :
        (t : PacketType) (d₀ d₁ d₂ d₃ d₄ : Bytes) (d : PacketData) (s : Server) (c : Client)
        (at last : ℕ) (f : Frame) (scene : GameScene) (w : Window) (a : ServerAction) (k : Kind)
        (b : Bool)
        → a ≢ ignored
        → announce a d.server_id (holds scene) k d.server_id ≡ b
        → server_action (pos (type_code t)) ≡ a
        → Reads d₀ d₁ d₂ d₃ d₄ d
        → s.sequence_number + 1 < 2 ^ 31
        → c.last_packet_number ≡ pos last
        → last ≤ s.sequence_number
        → All (λ e. e ≢ closed) f.events
        → let message = (Server.create_packet t (join (d₀ ∷ d₁ ∷ d₂ ∷ d₃ ∷ []) d₄) s).1 in
          (c' : Client) × (handle_receive success at message c ≡ ok c')
          × (holds (run_frames (record f { packet = c'.packet_data } ∷ []) scene w).0 k d.server_id
              ≡ b)
    told t d₀ d₁ d₂ d₃ d₄ d s c at last f scene w a k b ne h act reads room e le stays =
        let (c', took, same) =
          received t d₀ d₁ d₂ d₃ d₄ d s c at last (not_heartbeat t act ne) reads room e le in
        (
          c',
          took,
          frame_announces (record f { packet = c'.packet_data }) scene w a k d.server_id b stays
              (ap (λ q. server_action q.action) same ∙ act) (ap (λ q. q.server_id) same) h,
        )

    -- Where the server creates a packet CREATE_ENEMY, CREATE_BOSS, CREATE_PLAYER or CREATE_BULLET, with
    -- five segments that the client can parse, and the client takes the datagram, then after the next
    -- frame, unless it closes the window, the scene holds a sprite of that kind with the identifier that
    -- the server wrote, and the picture that the window displays has this sprite in it.
    pub announced_is_shown :
        (t : PacketType) (d₀ d₁ d₂ d₃ d₄ : Bytes) (d : PacketData) (s : Server) (c : Client)
        (at last : ℕ) (f : Frame) (scene : GameScene) (w : Window) (k : Kind)
        → server_action (pos (type_code t)) ≡ creates k
        → Reads d₀ d₁ d₂ d₃ d₄ d
        → s.sequence_number + 1 < 2 ^ 31
        → c.last_packet_number ≡ pos last
        → last ≤ s.sequence_number
        → All (λ e. e ≢ closed) f.events
        → let message = (Server.create_packet t (join (d₀ ∷ d₁ ∷ d₂ ∷ d₃ ∷ []) d₄) s).1 in
          (c' : Client) × (handle_receive success at message c ≡ ok c')
          × Shows k d.server_id (run_frames (record f { packet = c'.packet_data } ∷ []) scene w)
    announced_is_shown t d₀ d₁ d₂ d₃ d₄ d s c at last f scene w k act reads room e le stays =
        let (c', took, held) =
          told t d₀ d₁ d₂ d₃ d₄ d s c at last f scene w (creates k) k true (λ h. cc)
            (announce-creates k d.server_id (holds scene)) act reads room e le stays in
        (
          c',
          took,
          run_frame-Shows (record f { packet = c'.packet_data }) scene w k d.server_id stays held,
        )

    -- Where the server creates a packet DESTROY_ENEMY, DESTROY_BOSS or DESTROY_PLAYER, with five
    -- segments that the client can parse, and the client takes the datagram, then after the next frame,
    -- unless it closes the window, the scene holds no sprite of that kind, which is not the bullets', with
    -- the identifier that the server wrote.
    pub ended_is_removed :
        (t : PacketType) (d₀ d₁ d₂ d₃ d₄ : Bytes) (d : PacketData) (s : Server) (c : Client)
        (at last : ℕ) (f : Frame) (scene : GameScene) (w : Window) (k : Kind)
        → k ≢ bullets
        → server_action (pos (type_code t)) ≡ destroys k
        → Reads d₀ d₁ d₂ d₃ d₄ d
        → s.sequence_number + 1 < 2 ^ 31
        → c.last_packet_number ≡ pos last
        → last ≤ s.sequence_number
        → All (λ e. e ≢ closed) f.events
        → let message = (Server.create_packet t (join (d₀ ∷ d₁ ∷ d₂ ∷ d₃ ∷ []) d₄) s).1 in
          (c' : Client) × (handle_receive success at message c ≡ ok c')
          × (holds (run_frames (record f { packet = c'.packet_data } ∷ []) scene w).0 k d.server_id
              ≡ false)
    ended_is_removed t d₀ d₁ d₂ d₃ d₄ d s c at last f scene w k ne =
        told t d₀ d₁ d₂ d₃ d₄ d s c at last f scene w (destroys k) k false (λ h. cc)
          (announce-destroys k d.server_id (holds scene) ne)
