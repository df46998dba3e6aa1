-- ===== src/Process/Ends.antt =====
-- When a thread of the server's process throws, which ends the process.
use bee_r_type.Prelude.{
  ℕ, ◌≡◌, refl, sym, subst, ◌∙◌, ◌⊎◌, inl, inr, true, false, none, some, Bool-cases, Option-cases,
  Result, ok, thrown, out_of_range, ok-injective, Succeeds, >>=-Succeeds, Option, if_both,
}
use bee_r_type.Prelude.Int.{ℤ}
use bee_r_type.Platform.{Platform}
use bee_r_type.Network.Packet.{Packet}
use bee_r_type.Network.Queue
use bee_r_type.Server.{init}
use bee_r_type.Game.State.{Game, new_game}
use bee_r_type.Game.Spawning.{spawn_bullet}
use bee_r_type.Game.Spawning.Total.{new_game-IsReady}
use bee_r_type.Game.Actions.{add_player_action}
use bee_r_type.Game.Loop.{Times, initialize_players}
use bee_r_type.Game.Loop.Stages.{Stage, call_stage}
use bee_r_type.Game.Standing.{HasPositions}
use bee_r_type.Game.Standing.Moves.{Keeps, spawn_bullet-HasPositions}
use bee_r_type.Game.Standing.Rounds.{
  initialize_players-HasPositions, stop-HasPositions, is_lost_at, call_stage-outcome,
}
use bee_r_type.Handlers.{
  World, Handler, on_none, on_connect, on_disconnect, on_game_start, on_up, on_down, on_left,
  on_right, on_shoot, on_game_end, on_ping, sender, call_handler, find_handler, handle_packet,
  process_packet, with_server, req_connect, handle_disconnected, handle_game_start, handle_game_end,
  handle_player_shoot, handle_player_action, handle_ping, start,
}
use bee_r_type.Process.{
  Process, Step, receives, sends, prints, handles, begins, plays, Reach, here, next, start_process,
}

module _ ⦃p : Platform⦄ where
  open p use {Endpoint}

  abbrev WorldPlaced : World → Type 0
  WorldPlaced w = HasPositions w.game

  game_start-WorldPlaced : (w : World) → WorldPlaced w → WorldPlaced (handle_game_start w)
  unfolding handle_game_start
  game_start-WorldPlaced w h = if_both WorldPlaced w.game.server.game_running h h

  game_end-WorldPlaced : (w : World) → WorldPlaced w → WorldPlaced (handle_game_end w)
  unfolding handle_game_end
  game_end-WorldPlaced w h =
      if_both WorldPlaced w.game.server.game_running (stop-HasPositions w.game h) h

  player_action-WorldPlaced :
      (action : ℕ) (w : World) → WorldPlaced w → WorldPlaced (handle_player_action action w)
  unfolding handle_player_action add_player_action
  player_action-WorldPlaced action w h =
      if_both WorldPlaced w.game.server.game_running (sent (sender w)) h
    where
      sent :
          (o : Option ℕ)
          → WorldPlaced (elim o [
            | none ↦ w
            | some id ↦ record w { game = add_player_action id action w.game }
          ])
      sent none = h
      sent (some id) = h

  player_shoot-WorldPlaced :
      (w : World) → WorldPlaced w → Succeeds (handle_player_shoot w) WorldPlaced
  unfolding handle_player_shoot
  player_shoot-WorldPlaced w h = elim (Option-cases (sender w)) [
    | inl q ↦ (w, rw (q, handle_player_shoot), h)
    | inr (id, q) ↦
        rw (q, handle_player_shoot)
          (>>=-Succeeds (Keeps w.game) WorldPlaced (spawn_bullet id w.game) _
            (spawn_bullet-HasPositions id w.game h) (λ g k. (record w { game = g }, refl, k.0)))
  ]

  call_handler-WorldPlaced :
      (f : Handler) (w : World) → WorldPlaced w → Succeeds (call_handler f w) WorldPlaced
  unfolding call_handler req_connect handle_disconnected handle_ping
  call_handler-WorldPlaced on_none w h = (w, refl, h)
  call_handler-WorldPlaced on_connect w h = (req_connect w, refl, h)
  call_handler-WorldPlaced on_disconnect w h = (handle_disconnected w, refl, h)
  call_handler-WorldPlaced on_game_start w h =
      (handle_game_start w, refl, game_start-WorldPlaced w h)
  call_handler-WorldPlaced on_up w h =
      (handle_player_action 3 w, refl, player_action-WorldPlaced 3 w h)
  call_handler-WorldPlaced on_down w h =
      (handle_player_action 4 w, refl, player_action-WorldPlaced 4 w h)
  call_handler-WorldPlaced on_left w h =
      (handle_player_action 1 w, refl, player_action-WorldPlaced 1 w h)
  call_handler-WorldPlaced on_right w h =
      (handle_player_action 2 w, refl, player_action-WorldPlaced 2 w h)
  call_handler-WorldPlaced on_shoot w h = player_shoot-WorldPlaced w h
  call_handler-WorldPlaced on_game_end w h = (handle_game_end w, refl, game_end-WorldPlaced w h)
  call_handler-WorldPlaced on_ping w h = (handle_ping w, refl, h)

  handle_packet-WorldPlaced :
      (packet : Packet) (w : World) → WorldPlaced w → Succeeds (handle_packet packet w) WorldPlaced
  unfolding handle_packet
  handle_packet-WorldPlaced packet w h = elim (Option-cases (find_handler packet.code)) [
    | inl q ↦ (w, rw (q, handle_packet), h)
    | inr (f, q) ↦ rw (q, handle_packet) (call_handler-WorldPlaced f w h)
  ]

  -- The thread of the packet handlers waits, or handles the next packet.
  process_packet-WorldPlaced :
      (w : World)
      → WorldPlaced w
      → (process_packet w ≡ none)
        ⊎ ((w' : World) × (process_packet w ≡ some (ok w')) × WorldPlaced w')
  unfolding process_packet
  process_packet-WorldPlaced w h = elim (Option-cases (Queue.pop w.game.server.packet_queue)) [
    | inl q ↦ inl (rw (q, process_packet))
    | inr ((packet, rest), q) ↦
        let (w', returns, h') =
          handle_packet-WorldPlaced packet (with_server (λ s. record s { packet_queue = rest }) w)
            h in
        inr (w', rw (q, process_packet, returns), h')
  ]

  -- What a call that returned left, where it is known to succeed.
  returned {ℓ κ} :
      {A : Type ℓ} (P : A → Type κ) {call : Result A} {a : A} → Succeeds call P → call ≡ ok a → P a
  returned P (b, returns, holds) e = subst P (ok-injective (sym returns ∙ e)) holds

  Step-WorldPlaced : {x y : Process} → Step x y → WorldPlaced x.world → WorldPlaced y.world
  Step-WorldPlaced (receives code e bytes _) h = h
  Step-WorldPlaced (sends code _) h = h
  Step-WorldPlaced (prints code _) h = h
  Step-WorldPlaced {x} (handles w _ e) h = elim (process_packet-WorldPlaced x.world h) [
    | inl q ↦ absurd (cc)
    | inr (w', q, h') ↦ let same : ok w' ≡ ok w = cc in subst WorldPlaced (ok-injective same) h'
  ]
  Step-WorldPlaced {x} (begins before after n g _ e) h =
      returned HasPositions (initialize_players-HasPositions n x.world.game h) e
  Step-WorldPlaced {x} (plays before after k t g _ e) h =
      let outcome = call_stage-outcome k t x.world.game h in
      elim (Bool-cases (is_lost_at k x.world.game)) [
        | inl q ↦ let never : thrown out_of_range ≡ ok g = sym (outcome.0 q) ∙ e in absurd (cc)
        | inr q ↦ returned HasPositions (outcome.1 q) e
      ]

  Reach-WorldPlaced : {x y : Process} → Reach x y → WorldPlaced x.world → WorldPlaced y.world
  Reach-WorldPlaced here h = h
  Reach-WorldPlaced (next r s) h = Step-WorldPlaced s (Reach-WorldPlaced r h)

  -- After every sequence of whole steps of the threads of the server's process, in any order and for any
  -- datagrams, where a step is a handler, the start of a game or a call of a round that no other thread
  -- interrupts, the next such step of the thread of the packet handlers and of a game thread ends as
  -- follows. The first waits, or handles the next packet without an exception; a game that begins makes
  -- its players. A call of a round of the game, whatever the clock shows, throws `std::out_of_range` if it
  -- is that of the actions and a waiting action moves a player that is not in the game's map, and
  -- otherwise succeeds.
  pub process_ends_only :
      (unspecified : Endpoint) (unset : ℕ) (total : ℤ) {y : Process}
      → Reach (start_process unspecified unset total) y
      → (n : ℕ) (k : Stage) (t : Times)
      → let g = y.world.game in
        ((process_packet y.world ≡ none) ⊎ ((w : World) × (process_packet y.world ≡ some (ok w))))
        × ((g' : Game) × (initialize_players n g ≡ ok g'))
        × (((is_lost_at k g ≡ true) × (call_stage k t g ≡ thrown out_of_range))
            ⊎ ((is_lost_at k g ≡ false) × ((g' : Game) × (call_stage k t g ≡ ok g'))))
  unfolding start_process start new_game
  process_ends_only unspecified unset total {y} r n k t =
      let h =
        Reach-WorldPlaced r (tt, tt, tt, tt, new_game-IsReady (init unspecified unset) total) in
      let (g', made, _) = initialize_players-HasPositions n y.world.game h in
      let (throws, succeeds) = call_stage-outcome k t y.world.game h in
      (
        elim (process_packet-WorldPlaced y.world h) [ inl q ↦ inl q | inr (w, q, _) ↦ inr (w, q) ],
        (g', made),
        elim (Bool-cases (is_lost_at k y.world.game)) [
          | inl q ↦ inl (q, throws q)
          | inr q ↦ let (g'', played, _) = succeeds q in inr (q, (g'', played))
        ],
      )
