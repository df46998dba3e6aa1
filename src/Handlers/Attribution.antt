-- ===== src/Handlers/Attribution.antt =====
-- Whose packet a handler takes a packet for: the queue holds no sender, and every handler looks at the
-- endpoint that the server received from last.
use bee_r_type.Prelude.{
  ◌+◌, ◌^◌, ◌≡◌, refl, ap, sym, ◌∙◌, ◌≢◌, ◌<◌, ◌≤◌, none, some, [], ◌∷◌, arith, ok,
}
use bee_r_type.Prelude.Int.{pos}
use bee_r_type.Prelude.Decimal.{Bytes}
use bee_r_type.Platform.{Platform}
use bee_r_type.Network.Packet.{typed_packet, Packet}
use bee_r_type.Network.Queue
use bee_r_type.Network.Queue.{Queue}
use bee_r_type.Server.{
  Server, success, handle_receive, accept_datagram, deserialize_packet, find_client, create_client,
  new_client, add_client, req_connect_data, reply, start_receive,
}
use bee_r_type.Server.Clients.{IsValid, create_client_lem}
use bee_r_type.Handlers.{
  World, with_server, req_connect, find_handler, call_handler, handle_packet, process_packet,
}

module _ ⦃p : Platform⦄ where
  open p use {Endpoint}

  -- A datagram that begins with the code of `REQCONNECT` comes to the server.
  abbrev connects_from : Endpoint → Bytes → World → World
  connects_from e rest = with_server (handle_receive success e (1 ∷ rest))

  -- One round of the handler's thread when the queue begins with such a packet.
  abbrev popped : Queue Packet → Server → Server
  popped q s = record s { packet_queue = q }

  process_packet-connect :
      (w : World) (q : Queue Packet)
      → w.game.server.packet_queue ≡ typed_packet (pos 1) ∷ q
      → process_packet w ≡ some (ok (req_connect (with_server (popped q) w)))
  unfolding process_packet Queue.pop handle_packet find_handler call_handler typed_packet
  process_packet-connect w q h =
      ap
        (λ o. elim o [
          | none ↦ none
          | some (packet, q') ↦ some (handle_packet packet (with_server (popped q') w))
        ])
        (ap Queue.pop h)

  create_client-keeps :
      (e : Endpoint) (s : Server)
      → let s' = (create_client e s).0 in
        (s'.remote_endpoint ≡ s.remote_endpoint) × (s'.packet_queue ≡ s.packet_queue)
  unfolding create_client new_client add_client
  create_client-keeps e s = ground arith

  req_connect-finds :
      (e : Endpoint) (w : World)
      → IsValid w.game.server
      → w.game.server.nb_clients + 1 < 2 ^ 32
      → w.game.server.remote_endpoint ≡ e
      → let s = w.game.server in
        let s' = (req_connect w).game.server in
        IsValid s'
        × (find_client e s'.clients ≢ none)
        × ((e' : Endpoint) → e' ≢ e → find_client e' s'.clients ≡ find_client e' s.clients)
        × (s'.nb_clients ≤ s.nb_clients + 1)
        × (s'.remote_endpoint ≡ e)
        × (s'.packet_queue ≡ s.packet_queue)
  unfolding req_connect req_connect_data reply
  req_connect-finds e w v room h =
      let s = w.game.server in
      let (valid, (c, found, _, _), others, _, bound) =
        create_client_lem s.remote_endpoint s v room in
      let (endpoint, queue) = create_client-keeps s.remote_endpoint s in
      (
        record {
          ids = valid.ids;
          bounded = valid.bounded;
          own = valid.own;
          separate = valid.separate;
        },
        λ z. absurd (cc),
        λ e' ne. others e' (λ z. ne (z ∙ h)),
        bound,
        endpoint ∙ h,
        queue,
      )

  -- One such round, as a step from server to server.
  abbrev Connects : Endpoint → Queue Packet → Server → Server → Type 0
  Connects e q s s' =
      IsValid s'
      × (find_client e s'.clients ≢ none)
      × ((e' : Endpoint) → e' ≢ e → find_client e' s'.clients ≡ find_client e' s.clients)
      × (s'.nb_clients ≤ s.nb_clients + 1)
      × (s'.remote_endpoint ≡ e)
      × (s'.packet_queue ≡ q)

  process_packet-Connects :
      (e : Endpoint) (w : World) (q : Queue Packet)
      → IsValid w.game.server
      → w.game.server.nb_clients + 1 < 2 ^ 32
      → w.game.server.remote_endpoint ≡ e
      → w.game.server.packet_queue ≡ typed_packet (pos 1) ∷ q
      → (w' : World) × (process_packet w ≡ some (ok w')) × Connects e q w.game.server w'.game.server
  process_packet-Connects e w q v room last queue =
      let w₀ = with_server (popped q) w in
      (
        req_connect w₀,
        process_packet-connect w q queue,
        req_connect-finds e w₀
            (record { ids = v.ids; bounded = v.bounded; own = v.own; separate = v.separate }) room
            last,
      )

  -- Two endpoints ask to connect, and both datagrams come before the handler's thread runs. If the
  -- server is valid and has room for two, its queue is empty and it does not know the first
  -- endpoint, then both packets are taken for the second endpoint's, and the first is not
  -- registered.
  pub overtaken_connect_lost :
      (e₁ e₂ : Endpoint) (rest₁ rest₂ : Bytes) (w : World)
      → e₁ ≢ e₂
      → IsValid w.game.server
      → w.game.server.nb_clients + 2 < 2 ^ 32
      → w.game.server.packet_queue ≡ []
      → find_client e₁ w.game.server.clients ≡ none
      → (w' w'' : World) × (process_packet (connects_from e₂ rest₂ (connects_from e₁ rest₁ w))
          ≡ some (ok w'))
        × (process_packet w' ≡ some (ok w''))
        × (find_client e₁ w''.game.server.clients ≡ none)
        × (find_client e₂ w''.game.server.clients ≢ none)
  unfolding handle_receive accept_datagram deserialize_packet Queue.push start_receive
  overtaken_connect_lost e₁ e₂ rest₁ rest₂ w ne v room idle stranger =
      let w₀ = connects_from e₂ rest₂ (connects_from e₁ rest₁ w) in
      let q : w₀.game.server.packet_queue ≡ typed_packet (pos 1) ∷ typed_packet (pos 1) ∷ [] =
        rw idle in
      let (w', first, (v₁, _, others, bound, last, queue)) =
        process_packet-Connects e₂ w₀ (typed_packet (pos 1) ∷ [])
          (record { ids = v.ids; bounded = v.bounded; own = v.own; separate = v.separate })
          (omega arith) refl q in
      let (w'', second, (_, found, others', _, _, _)) =
        process_packet-Connects e₂ w' [] v₁ (omega arith) last queue in
      (w', w'', first, second, others' e₁ ne ∙ (others e₁ ne ∙ stranger), found)

  -- Two endpoints ask to connect, to a valid server that has room for two and whose queue is empty.
  -- If the handler's thread runs after each of the two datagrams, both endpoints are registered.
  prompt_connects_register :
      (e₁ e₂ : Endpoint) (rest₁ rest₂ : Bytes) (w : World)
      → e₁ ≢ e₂
      → IsValid w.game.server
      → w.game.server.nb_clients + 2 < 2 ^ 32
      → w.game.server.packet_queue ≡ []
      → (w' w'' : World) × (process_packet (connects_from e₁ rest₁ w) ≡ some (ok w'))
        × (process_packet (connects_from e₂ rest₂ w') ≡ some (ok w''))
        × (find_client e₁ w''.game.server.clients ≢ none)
        × (find_client e₂ w''.game.server.clients ≢ none)
  unfolding handle_receive accept_datagram deserialize_packet Queue.push start_receive
  prompt_connects_register e₁ e₂ rest₁ rest₂ w ne v room idle =
      let w₀ = connects_from e₁ rest₁ w in
      let q : w₀.game.server.packet_queue ≡ typed_packet (pos 1) ∷ [] = rw idle in
      let (w', first, (v₁, found, _, bound, _, queue)) =
        process_packet-Connects e₁ w₀ []
          (record { ids = v.ids; bounded = v.bounded; own = v.own; separate = v.separate })
          (omega arith) refl q in
      let w₁ = connects_from e₂ rest₂ w' in
      let q' : w₁.game.server.packet_queue ≡ typed_packet (pos 1) ∷ [] = rw queue in
      let (w'', second, (_, found', others, _, _, _)) =
        process_packet-Connects e₂ w₁ []
          (record { ids = v₁.ids; bounded = v₁.bounded; own = v₁.own; separate = v₁.separate })
          (omega arith) refl q' in
      (w', w'', first, second, (λ z. found (sym (others e₁ ne) ∙ z)), found')
