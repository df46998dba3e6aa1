-- ===== src/Process/Sound.antt =====
-- What holds of the server's process after every sequence of whole steps of its threads.
use mathlib.Core.List.{Nodup-nil}
use bee_r_type.Prelude.{ℕ, suc, ◌+◌, ◌^◌, ◌<◌, ◌≡◌, refl, subst, arith}
use bee_r_type.Prelude.Int.{ℤ}
use bee_r_type.Platform.{Platform}
use bee_r_type.Ecs.Registry.{empty_registry}
use bee_r_type.Server.Clients.{IsValid}
use bee_r_type.Server.Numbers.{IsNumbered, numbering}
use bee_r_type.Server.Sound.{
  handle_receive-IsSound, handle_print_timer-IsSound, handle_send_timer-IsSound, init-IsSound,
}
use bee_r_type.Game.State.{new_game, register_components}
use bee_r_type.Game.Keys.{HasFreshKeys}
use bee_r_type.Game.Loop.Keys.{initialize_players-Advances}
use bee_r_type.Game.Loop.Stages.{call_stage-Advances}
use bee_r_type.Handlers.{start}
use bee_r_type.Process.{
  Process, Step, receives, sends, prints, handles, begins, plays, Reach, here, next, steps,
  start_process,
}
use bee_r_type.Process.Handled.{
  GameSound, Advances-GameSound, server-GameSound, GameSound-more, process_packet-WorldSound,
}

module _ ⦃p : Platform⦄ where
  open p use {Endpoint}

  abbrev pub ProcessSound : ℕ → Process → Type 0
  ProcessSound k x = GameSound k x.world.game

  Step-ProcessSound :
      {k : ℕ} {x y : Process}
      → Step x y
      → k + 1 < 2 ^ 32
      → ProcessSound k x
      → ProcessSound (k + 1) y
  Step-ProcessSound {k} {x} (receives code e bytes _) few h =
      GameSound-more
        (server-GameSound _ h (handle_receive-IsSound code e bytes x.world.game.server h.server))
  Step-ProcessSound {k} {x} (sends code _) few h =
      GameSound-more
        (server-GameSound _ h (handle_send_timer-IsSound code x.world.game.server h.server))
  Step-ProcessSound {k} {x} (prints code _) few h =
      GameSound-more
        (server-GameSound _ h (handle_print_timer-IsSound code x.world.game.server h.server))
  Step-ProcessSound {k} {x} (handles w _ e) few h = process_packet-WorldSound x.world w e few h
  Step-ProcessSound {k} {x} (begins before after n g _ e) few h =
      GameSound-more (Advances-GameSound (initialize_players-Advances n x.world.game g e) h)
  Step-ProcessSound {k} {x} (plays before after stage t g _ e) few h =
      GameSound-more (Advances-GameSound (call_stage-Advances stage t x.world.game g e) h)

  pub Reach-ProcessSound :
      {x y : Process} (r : Reach x y)
      → steps r < 2 ^ 32
      → ProcessSound 0 x
      → ProcessSound (steps r) y
  unfolding steps
  Reach-ProcessSound here few h = h
  Reach-ProcessSound {y = y} (next r s) few h =
      let one_more : steps r + 1 ≡ suc (steps r) = omega arith in
      subst (λ k. ProcessSound k y) one_more
        (Step-ProcessSound s (omega arith) (Reach-ProcessSound r (omega arith) h))

  pub started-ProcessSound :
      (unspecified : Endpoint) (unset : ℕ) (total : ℤ)
      → ProcessSound 0 (start_process unspecified unset total)
  unfolding start_process start new_game
  started-ProcessSound unspecified unset total = record {
    server = init-IsSound unspecified unset;
    fresh = record {
      players = Nodup-nil;
      bullets = (Nodup-nil, tt);
      enemies = (Nodup-nil, tt);
      bosses = (Nodup-nil, tt);
    };
    registry = refl;
  }

  -- After every sequence of fewer than 2 ^ 32 whole steps of the threads of the server's process, in any
  -- order and for any datagrams, errors and readings of the clock, where a step is a handler, the start of a
  -- game or a call of a round that no other thread interrupts, and which leaves `sequence_number` below
  -- 2 ^ 31: no identifier of a client is lost or in use twice; the packets that wait to be sent carry growing
  -- numbers, up to the last one given; no identifier stands twice in a map of entities, and the next ones are
  -- new; and the game's registry is the one that it was made with.
  pub start_process-ProcessSound :
      (unspecified : Endpoint) (unset : ℕ) (total : ℤ) {y : Process}
      (r : Reach (start_process unspecified unset total) y)
      → steps r < 2 ^ 32
      → y.world.game.server.sequence_number < 2 ^ 31
      → IsValid y.world.game.server
        × IsNumbered (numbering y.world.game.server)
        × HasFreshKeys y.world.game
        × (y.world.game.registry ≡ register_components empty_registry)
  start_process-ProcessSound unspecified unset total r few small =
      let h = Reach-ProcessSound r few (started-ProcessSound unspecified unset total) in
      (h.server.valid, h.server.numbered, h.fresh, h.registry)
