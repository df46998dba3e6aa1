-- ===== src/Process/Handled.antt =====
-- What a packet handler keeps: the soundness of the server and the game.
use mathlib.Core.List.{Nodup-nil}
use bee_r_type.Prelude.{
  if_both, ℕ, ◌+◌, ◌^◌, ◌<◌, ◌≡◌, subst, ◌∙◌, inl, inr, true, false, none, some, [], ok, arith,
  Option-cases, >>=-ok, ok-injective, Option,
}
use bee_r_type.Platform.{Platform}
use bee_r_type.Ecs.Registry.{empty_registry}
use bee_r_type.Network.Packet.{Packet, game_start}
use bee_r_type.Network.Queue
use bee_r_type.Server.{Server}
use bee_r_type.Server.News.{nothing-IsNews}
use bee_r_type.Server.Sound.{
  IsSound, Tells-IsSound, announce-IsSound, send_pong-IsSound, req_connect_data-IsSound,
  disconnect_data-IsSound, kept,
}
use bee_r_type.Game.State.{Game, register_components}
use bee_r_type.Game.Keys.{HasFreshKeys, Advances}
use bee_r_type.Game.Spawning.{spawn_bullet}
use bee_r_type.Game.Actions.{add_player_action}
use bee_r_type.Game.Actions.Keys.{spawn_bullet-Advances, actions_field-Advances}
use bee_r_type.Game.Loop.{stop}
use bee_r_type.Handlers.{
  World, Handler, on_none, on_connect, on_disconnect, on_game_start, on_up, on_down, on_left,
  on_right, on_shoot, on_game_end, on_ping, sender, call_handler, find_handler, handle_packet,
  process_packet, with_server, req_connect, handle_disconnected, handle_game_start, handle_game_end,
  handle_player_shoot, handle_player_action, handle_ping,
}

module _ ⦃p : Platform⦄ where
  open p use {Endpoint}

  -- A sound server, fresh identifiers, and the registry that the game was made with.
  pub record GameSound (k : ℕ) (g : Game) : Type 0 where
    pub server : IsSound k g.server
    pub fresh : HasFreshKeys g
    pub registry : g.registry ≡ register_components empty_registry

  pub Advances-GameSound : {k : ℕ} {g g' : Game} → Advances g g' → GameSound k g → GameSound k g'
  Advances-GameSound a h = record {
    server = Tells-IsSound a.told h.server;
    fresh = a.fresh h.fresh;
    registry = a.registry ∙ h.registry;
  }

  pub server-GameSound :
      {k k' : ℕ} {g : Game} (s : Server)
      → GameSound k g
      → IsSound k' s
      → GameSound k' (record g { server = s })
  server-GameSound s h sound = record {
    server = sound;
    fresh = record {
      players = h.fresh.players;
      bullets = h.fresh.bullets;
      enemies = h.fresh.enemies;
      bosses = h.fresh.bosses;
    };
    registry = h.registry;
  }

  pub GameSound-more : {k : ℕ} {g : Game} → GameSound k g → GameSound (k + 1) g
  GameSound-more h = record {
    server = record {
      valid = h.server.valid;
      numbered = h.server.numbered;
      room = omega (arith, h.server.room);
      written = h.server.written;
    };
    fresh = h.fresh;
    registry = h.registry;
  }

  stop-GameSound : {k : ℕ} (g : Game) → GameSound k g → GameSound k (stop g)
  unfolding stop
  stop-GameSound g h = record {
    server = h.server;
    fresh = record {
      players = Nodup-nil;
      bullets = (Nodup-nil, tt);
      enemies = (Nodup-nil, tt);
      bosses = (Nodup-nil, tt);
    };
    registry = h.registry;
  }

  abbrev pub WorldSound : ℕ → World → Type 0
  WorldSound k w = GameSound k w.game

  game_start-WorldSound : {k : ℕ} (w : World) → WorldSound k w → WorldSound k (handle_game_start w)
  unfolding handle_game_start
  game_start-WorldSound {k} w h =
      let s = w.game.server in
      let started =
        kept true s.remote_endpoint s.packet_queue s.bytes_received s.receiving s.send_timer
          s.print_timer h.server in
      if_both (WorldSound k) s.game_running h (
        server-GameSound _ h (
          announce-IsSound game_start [] (record s { game_running = true }) nothing-IsNews started))

  game_end-WorldSound : {k : ℕ} (w : World) → WorldSound k w → WorldSound k (handle_game_end w)
  unfolding handle_game_end
  game_end-WorldSound {k} w h =
      let s = w.game.server in
      let ended =
        kept false s.remote_endpoint s.packet_queue s.bytes_received s.receiving s.send_timer
          s.print_timer h.server in
      if_both (WorldSound k) s.game_running
        (stop-GameSound _ (server-GameSound (record s { game_running = false }) h ended)) h

  player_action-WorldSound :
      {k : ℕ} (action : ℕ) (w : World)
      → WorldSound k w
      → WorldSound k (handle_player_action action w)
  unfolding handle_player_action add_player_action
  player_action-WorldSound {k} action w h =
      if_both (WorldSound k) w.game.server.game_running (sent (sender w)) h
    where
      sent :
          (o : Option ℕ)
          → WorldSound k (elim o [
            | none ↦ w
            | some id ↦ record w { game = add_player_action id action w.game }
          ])
      sent none = h
      sent (some id) = Advances-GameSound (actions_field-Advances _ w.game) h

  player_shoot-WorldSound :
      {k : ℕ} (w w' : World) → handle_player_shoot w ≡ ok w' → WorldSound k w → WorldSound k w'
  unfolding handle_player_shoot
  player_shoot-WorldSound {k} w w' e h = elim (Option-cases (sender w)) [
    | inl q ↦ subst (WorldSound k) (ok-injective (rw (q, handle_player_shoot) at e)) h
    | inr (id, q) ↦
        let (g, shot, left) =
          >>=-ok (spawn_bullet id w.game) _ (rw (q, handle_player_shoot) at e) in
        subst (WorldSound k) (ok-injective left)
          (Advances-GameSound (spawn_bullet-Advances id w.game g shot) h)
  ]

  done : {k : ℕ} {w w' : World} → ok w ≡ ok w' → WorldSound k w → WorldSound (k + 1) w'
  done {k} e h = GameSound-more (subst (WorldSound k) (ok-injective e) h)

  -- A handler registers one client at most.
  call_handler-WorldSound :
      {k : ℕ} (f : Handler) (w w' : World)
      → call_handler f w ≡ ok w'
      → k + 1 < 2 ^ 32
      → WorldSound k w
      → WorldSound (k + 1) w'
  unfolding call_handler req_connect handle_disconnected handle_ping
  call_handler-WorldSound {k} on_none w w' e few h = done e h
  call_handler-WorldSound {k} on_connect w w' e few h =
      let s = w.game.server in
      subst (WorldSound (k + 1)) (ok-injective e)
        (server-GameSound _ h (req_connect_data-IsSound s.remote_endpoint s h.server few))
  call_handler-WorldSound {k} on_disconnect w w' e few h =
      let s = w.game.server in
      done e (server-GameSound _ h (disconnect_data-IsSound s.remote_endpoint s h.server))
  call_handler-WorldSound {k} on_game_start w w' e few h = done e (game_start-WorldSound w h)
  call_handler-WorldSound {k} on_up w w' e few h = done e (player_action-WorldSound 3 w h)
  call_handler-WorldSound {k} on_down w w' e few h = done e (player_action-WorldSound 4 w h)
  call_handler-WorldSound {k} on_left w w' e few h = done e (player_action-WorldSound 1 w h)
  call_handler-WorldSound {k} on_right w w' e few h = done e (player_action-WorldSound 2 w h)
  call_handler-WorldSound {k} on_shoot w w' e few h =
      GameSound-more (player_shoot-WorldSound w w' e h)
  call_handler-WorldSound {k} on_game_end w w' e few h = done e (game_end-WorldSound w h)
  call_handler-WorldSound {k} on_ping w w' e few h =
      done e (server-GameSound _ h (send_pong-IsSound w.game.server h.server))

  pub process_packet-WorldSound :
      {k : ℕ} (w w' : World)
      → process_packet w ≡ some (ok w')
      → k + 1 < 2 ^ 32
      → WorldSound k w
      → WorldSound (k + 1) w'
  unfolding process_packet handle_packet
  process_packet-WorldSound {k} w w' e few h = taken (Queue.pop w.game.server.packet_queue) e
    where
      handled :
          (v : World) (o : Option Handler)
          → WorldSound k v
          → elim o [ none ↦ ok v | some f ↦ call_handler f v ] ≡ ok w'
          → WorldSound (k + 1) w'
      handled v none s q = done q s
      handled v (some f) s q = call_handler-WorldSound f v w' q few s

      taken :
          (o : Option (Packet × Queue.Queue Packet))
          → elim o [
            | none ↦ none
            | some (packet, rest) ↦
                some (handle_packet packet (with_server (λ s. record s { packet_queue = rest }) w))
          ]
            ≡ some (ok w')
          → WorldSound (k + 1) w'
      taken none q = absurd (cc)
      taken (some (packet, rest)) q =
          let s = w.game.server in
          handled (with_server (λ s. record s { packet_queue = rest }) w) (find_handler packet.code)
            (server-GameSound _ h (
              kept s.game_running s.remote_endpoint rest s.bytes_received s.receiving s.send_timer
                s.print_timer h.server))
            (cc)
