-- ===== src/Server/Interleaving.antt =====
-- The queue of the server between its writers and the timer that empties it. `send_queue_` has no lock of
-- its own: what holds here is of queueings and expiries that do not overlap.
use mathlib.Core.List.{append_assoc, append-nil}
use bee_r_type.Prelude.{◌≡◌, refl, sym, ap, ◌∙◌, List, [], ◌∷◌, ◌++◌}
use bee_r_type.Prelude.Map.{Map}
use bee_r_type.Prelude.Decimal.{Bytes}
use bee_r_type.Platform.{Platform}
use bee_r_type.Server.{Server, ClientRegister, success, broadcast, handle_send_timer}
use bee_r_type.Server.Sending.{copies, deliveries, handle_send_timer_lem, handle_send_timer_idle}

-- A thread queues a message, or the timer expires without an error, while no other thread uses the queue.
pub data Event : Type 0 where
  queues : Bytes → Event
  expires : Event

-- The messages that are queued, in their order.
abbrev pub queued : List Event → List Bytes
queued [] = []
queued (queues message ∷ es) = message ∷ queued es
queued (expires ∷ es) = queued es

module _ ⦃p : Platform⦄ where
  open p use {Endpoint}

  -- The events one after the other.
  unfoldable pub happen : List Event → Server → Server
  happen [] s = s
  happen (queues message ∷ es) s = happen es (broadcast message s)
  happen (expires ∷ es) s = happen es (handle_send_timer success s)

  -- What was sent, and what is left to send to the clients there are now.
  abbrev account : Server → List (Bytes × Endpoint)
  account s = s.sent ++ deliveries s.clients s.send_queue

  expires-account :
      (queue : List Bytes) (s : Server)
      → s.send_queue ≡ queue
      → (account (handle_send_timer success s) ≡ account s)
        × ((handle_send_timer success s).clients ≡ s.clients)
  expires-account [] s q =
      let idle = handle_send_timer_idle s q in (ap account idle, ap (λ x. x.clients) idle)
  expires-account (message ∷ rest) s q =
      let sends = handle_send_timer_lem s message rest q in
      (
        ap account sends
            ∙ (append_assoc s.sent (copies s.clients message) (deliveries s.clients rest)
                ∙ ap (λ l. s.sent ++ deliveries s.clients l) (sym q)),
        ap (λ x. x.clients) sends,
      )

  deliveries-append :
      (cs : Map ClientRegister) (xs ys : List Bytes)
      → deliveries cs (xs ++ ys) ≡ deliveries cs xs ++ deliveries cs ys
  deliveries-append cs [] ys = refl
  deliveries-append cs (x ∷ xs) ys =
      ap (λ l. copies cs x ++ l) (deliveries-append cs xs ys)
      ∙ sym (append_assoc (copies cs x) (deliveries cs xs) (deliveries cs ys))

  broadcast-account :
      (message : Bytes) (s : Server)
      → account (broadcast message s) ≡ account s ++ deliveries s.clients (message ∷ [])
  unfolding broadcast
  broadcast-account message s =
      ap (λ l. s.sent ++ l) (deliveries-append s.clients s.send_queue (message ∷ []))
      ∙ sym (
          append_assoc s.sent (deliveries s.clients s.send_queue)
            (deliveries s.clients (message ∷ [])))

  -- In every sequence of whole queueings and whole expiries of the timer, none of which overlaps another,
  -- while no client comes or leaves: what was sent, followed by what the queue still holds for each client, is what it was
  -- before, followed by the new messages for each client in the order in which they were queued. So no
  -- message of such a sequence is lost, sent twice or overtaken.
  pub happen-account :
      (es : List Event) (s : Server)
      → let s' = happen es s in
        (s'.sent ++ deliveries s'.clients s'.send_queue
          ≡ (s.sent ++ deliveries s.clients s.send_queue) ++ deliveries s.clients (queued es))
        × (s'.clients ≡ s.clients)
  unfolding happen broadcast
  happen-account [] s = (sym (append-nil (account s)), refl)
  happen-account (queues message ∷ es) s =
      let (sum, same) = happen-account es (broadcast message s) in
      let later = deliveries s.clients (queued es) in
      let new = deliveries s.clients (message ∷ []) in
      (
        sum
            ∙ (ap (λ l. l ++ later) (broadcast-account message s)
                ∙ (append_assoc (account s) new later
                    ∙ ap (λ l. account s ++ (l ++ later)) (append-nil (copies s.clients message)))),
        same,
      )
  happen-account (expires ∷ es) s =
      let (kept, still) = expires-account s.send_queue s refl in
      let (sum, same) = happen-account es (handle_send_timer success s) in
      (
        sum
            ∙ (ap (λ cs. account (handle_send_timer success s) ++ deliveries cs (queued es)) still
                ∙ ap (λ l. l ++ deliveries s.clients (queued es)) kept),
        same ∙ still,
      )
