-- ===== src/Client/GameScene/Frames.antt =====
-- Runs of frames of the scene, each with the packet that the client holds when it begins.
use mathlib.Core.Path.{fun_ext, ap₂}
use bee_r_type.Prelude.{ℕ, ◌≡◌, refl, ap, ◌∙◌, List, [], ◌∷◌}
use bee_r_type.Prelude.Int.{ℤ}
use bee_r_type.Platform.{Platform}
use bee_r_type.Client.{PacketData}
use bee_r_type.Client.Sprites.{Graphics, Event, Window}
use bee_r_type.Client.GameScene.{
  Kind, server_action, GameScene, update, send_over_packets, set_packet_data, enemies,
}
use bee_r_type.Client.GameScene.Held.{World, announce, holds, after_events, holds-update}

module _ ⦃p : Platform⦄ where
  open p use {Double}

  module _ ⦃g : Graphics p⦄ where
    pub record Frame : Type 0 where
      pub packet : PacketData
      pub events : List Event
      pub now : ℕ
      pub ping : Double
      pub lost : Double

    -- One iteration of the game in `main_loop`; the window is the component behind the scene.
    unfoldable pub run_frame : Frame → GameScene → Window → GameScene × Window
    run_frame f s w =
        let (s', w') = update f.now f.ping f.lost f.events (set_packet_data f.packet s) w in
        ((send_over_packets s').0, w')

    unfoldable pub run_frames : List Frame → GameScene → Window → GameScene × Window
    run_frames [] s w = (s, w)
    run_frames (f ∷ fs) s w = let (s', w') = run_frame f s w in run_frames fs s' w'

    -- The same packets and events, on sets of identifiers.
    abbrev pub replay : List Frame → World → World
    replay [] v = v
    replay (f ∷ fs) v =
        replay fs
          (after_events f.events (announce (server_action f.packet.action) f.packet.server_id v))

    holds-set_packet_data :
        (d : PacketData) (s : GameScene) (k : Kind) (i : ℤ)
        → holds (set_packet_data d s) k i ≡ holds s k i
    unfolding set_packet_data
    holds-set_packet_data d s enemies i = refl
    holds-set_packet_data d s _ i = refl

    holds-send_over_packets :
        (s : GameScene) (k : Kind) (i : ℤ) → holds (send_over_packets s).0 k i ≡ holds s k i
    unfolding send_over_packets
    holds-send_over_packets s enemies i = refl
    holds-send_over_packets s _ i = refl

    set_packet_data-packet_data :
        (d : PacketData) (s : GameScene) → (set_packet_data d s).packet_data ≡ d
    unfolding set_packet_data
    set_packet_data-packet_data d s = refl

    holds-run_frame :
        (f : Frame) (s : GameScene) (w : Window)
        → holds (run_frame f s w).0
          ≡ after_events f.events
              (announce (server_action f.packet.action) f.packet.server_id (holds s))
    unfolding run_frame
    holds-run_frame f s w =
        let s' = set_packet_data f.packet s in
        (fun_ext λ k. fun_ext λ i. holds-send_over_packets _ k i)
        ∙ holds-update f.now f.ping f.lost f.events s' w
        ∙ ap₂ (λ d v. after_events f.events (announce (server_action d.action) d.server_id v))
            (set_packet_data-packet_data f.packet s)
            (fun_ext λ k. fun_ext λ i. holds-set_packet_data f.packet s k i)

    -- After any run of frames the scene holds sprites, for each kind, under exactly the identifiers that a
    -- replay of the packets on sets of identifiers gives: a creation adds its identifier to the set of its kind,
    -- the end of a player, an enemy or a boss takes it away, the end of a bullet takes nothing away, and
    -- closing the window takes player 0 away, whichever the client's own player is.
    pub holds-run_frames :
        (fs : List Frame) (s : GameScene) (w : Window)
        → holds (run_frames fs s w).0 ≡ replay fs (holds s)
    unfolding run_frames
    holds-run_frames [] s w = refl
    holds-run_frames (f ∷ fs) s w =
        let (s', w') = run_frame f s w in
        holds-run_frames fs s' w' ∙ ap (replay fs) (holds-run_frame f s w)
