-- ===== src/Server/Sending.antt =====
-- What the server sends and receives: the timer that empties the send queue, the numbering of packets
-- and the receive loop.
use mathlib.Core.List.{append_assoc, append-nil}
use bee_r_type.Prelude.{
  ℕ, zero, suc, ◌+◌, ◌≡◌, refl, sym, ap, subst, ◌∙◌, ◌↔◌, true, false, List, [], ◌∷◌, ◌++◌, map,
  arith, length,
}
use bee_r_type.Prelude.Map.{Map}
use bee_r_type.Prelude.Decimal.{Bytes, to_string}
use bee_r_type.Platform.{Platform}
use bee_r_type.Network.Packet.{typed_packet, PacketType, type_code, char_value}
use bee_r_type.Network.Queue.{push}
use bee_r_type.Server.{
  Server, ClientRegister, ErrorCode, success, message_size, operation_aborted, other_error,
  send_to_all, send_to_client, send_front, handle_send_timer, handle_receive, start_send_timer,
  announce, create_packet, packet_data, deserialize_packet, accept_datagram, broadcast,
}

true-false : ¬ (false ≡ true)
true-false h = cc

module _ ⦃p : Platform⦄ where
  open p use {Endpoint}

  -- One datagram with the message for each client, in the order of the identifiers.
  abbrev pub copies : Map ClientRegister → Bytes → List (Bytes × Endpoint)
  copies cs message = map (λ x. (message, x.1.endpoint)) cs

  send_to_all_lem :
      (message : Bytes) (cs : Map ClientRegister) (s : Server)
      → send_to_all message cs s ≡ record s { sent = s.sent ++ copies cs message }
  unfolding send_to_all send_to_client
  send_to_all_lem message [] s = rw (append-nil s.sent)
  send_to_all_lem message ((id, c) ∷ cs) s =
      send_to_all_lem message cs (record s { sent = s.sent ++ (message, c.endpoint) ∷ [] })
      ∙ ap (λ l. record s { sent = l })
          (append_assoc s.sent ((message, c.endpoint) ∷ []) (copies cs message))

  -- Each expiry of the timer without an error, if a message waits, sends the oldest message to every client once, in the
  -- order of the identifiers, drops it from the queue and sets the timer again.
  pub handle_send_timer_lem :
      (s : Server) (message : Bytes) (rest : List Bytes)
      → s.send_queue ≡ message ∷ rest
      → handle_send_timer success s ≡ record s {
        send_queue = rest;
        sent = s.sent ++ copies s.clients message;
        send_timer = true;
      }
  unfolding handle_send_timer send_front start_send_timer
  handle_send_timer_lem s message rest q =
      rw (q, send_front)
        (ap start_send_timer
          (send_to_all_lem message s.clients (record s { send_queue = rest; send_timer = false })))

  -- With no message waiting it only sets the timer again.
  pub handle_send_timer_idle :
      (s : Server)
      → s.send_queue ≡ []
      → handle_send_timer success s ≡ record s { send_timer = true }
  unfolding handle_send_timer send_front start_send_timer
  handle_send_timer_idle s q =
      ap (λ l. start_send_timer (send_front l (record s { send_timer = false }))) q

  abbrev pub deliveries : Map ClientRegister → List Bytes → List (Bytes × Endpoint)
  deliveries cs [] = []
  deliveries cs (message ∷ rest) = copies cs message ++ deliveries cs rest

  -- So many expiries, with nothing in between.
  unfoldable pub ticks : ℕ → Server → Server
  ticks zero s = s
  ticks (suc n) s = ticks n (handle_send_timer success s)

  -- As many expiries of the timer as there are messages, with nothing in between, empty the queue:
  -- every client is sent every message once, and the messages go out in the order in which they
  -- were queued.
  pub ticks-length :
      (queue : List Bytes) (s : Server)
      → s.send_queue ≡ queue
      → ((ticks (length queue) s).send_queue ≡ [])
        × ((ticks (length queue) s).sent ≡ s.sent ++ deliveries s.clients queue)
  unfolding ticks
  ticks-length [] s q = (q, sym (append-nil s.sent))
  ticks-length (message ∷ rest) s q =
      let s' = record s {
        send_queue = rest;
        sent = s.sent ++ copies s.clients message;
        send_timer = true;
      } in
      let (done, all) = ticks-length rest s' refl in
      subst
        (λ t.
          ((ticks (length rest) t).send_queue ≡ [])
          × ((ticks (length rest) t).sent ≡ s.sent ++ deliveries s.clients (message ∷ rest)))
        (sym (handle_send_timer_lem s message rest q))
        (done, all ∙ append_assoc s.sent (copies s.clients message) (deliveries s.clients rest))

  -- A receive operation that ends leaves another one pending unless it was aborted. A datagram that came,
  -- whole or cut short, adds one packet to the queue, with its first byte for the type; an error adds none.
  pub handle_receive_lem :
      (error : ErrorCode) (e : Endpoint) (b : ℕ) (bytes : Bytes) (s : Server)
      → let s' = handle_receive error e (b ∷ bytes) s in
        (s'.receiving ≡ false ↔ error ≡ operation_aborted)
        × (s'.packet_queue ≡ elim error [
          | success ↦ s.packet_queue ++ typed_packet (char_value b) ∷ []
          | message_size ↦ s.packet_queue ++ typed_packet (char_value b) ∷ []
          | operation_aborted ↦ s.packet_queue
          | other_error ↦ s.packet_queue
        ])
  unfolding handle_receive accept_datagram deserialize_packet push
  handle_receive_lem success e b bytes s = (((λ h. absurd (true-false (sym h))), λ h. cc), refl)
  handle_receive_lem message_size e b bytes s =
      (((λ h. absurd (true-false (sym h))), λ h. cc), refl)
  handle_receive_lem operation_aborted e b bytes s = (((λ h. refl), λ h. refl), refl)
  handle_receive_lem other_error e b bytes s = (((λ h. absurd (true-false (sym h))), λ h. cc), refl)

  -- The packets made one after the other carry the numbers that follow one another, and are queued in
  -- that order.
  pub announce_pair :
      (t₁ t₂ : PacketType) (d₁ d₂ : Bytes) (s : Server)
      → let n = s.sequence_number in
        let s' = announce t₂ d₂ (announce t₁ d₁ s) in
        (s'.sequence_number ≡ n + 2)
        × (s'.send_queue
            ≡ s.send_queue
              ++ (type_code t₁ ∷ (b';' ∷ (packet_data d₁ ++ (b';' ∷ to_string (n + 1)))))
                ∷ (type_code t₂ ∷ (b';' ∷ (packet_data d₂ ++ (b';' ∷ to_string (n + 2)))))
                ∷ [])
  unfolding announce create_packet broadcast
  announce_pair t₁ t₂ d₁ d₂ s =
      let two : s.sequence_number + 1 + 1 ≡ s.sequence_number + 2 = omega arith in
      rw two (refl, append_assoc s.send_queue _ _)
