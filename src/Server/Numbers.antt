-- ===== src/Server/Numbers.antt =====
-- The numbers of the packets that wait in the send queue.
use bee_r_type.Prelude.{
  ℕ, ◌+◌, ◌<◌, ◌≤◌, ◌≡◌, refl, sym, ap, subst, ◌∙◌, inl, inr, List, [], ◌∷◌, ◌++◌, map, arith,
  Option-cases, if◌then◌else◌,
}
use bee_r_type.Prelude.Decimal.{Bytes}
use bee_r_type.Platform.{Platform}
use bee_r_type.Network.Packet.{PacketType, none_packet, game_started, game_not_started}
use bee_r_type.Server.News.{Made, message}
use bee_r_type.Server.{
  Server, announce, reply, find_client, new_client, create_client, req_connect_data,
  disconnect_data,
}

-- The numbers grow, from above one bound up to another.
abbrev pub Rises : ℕ → ℕ → List Made → Type 0
Rises low high [] = low ≤ high
Rises low high (x ∷ xs) = (low < x.2) × Rises x.2 high xs

-- The queue holds packets whose numbers grow, up to the last number that was given.
abbrev pub IsNumbered : List Bytes × ℕ → Type 0
IsNumbered (queue, last) = (made : List Made) × (queue ≡ map message made) × Rises 0 last made

Rises-low : (a b high : ℕ) (xs : List Made) → a ≤ b → Rises b high xs → Rises a high xs
Rises-low a b high [] le h = omega (arith, le, h)
Rises-low a b high (x ∷ xs) le h = (omega (arith, le, h.0), h.1)

Rises-high : (low a b : ℕ) (xs : List Made) → a ≤ b → Rises low a xs → Rises low b xs
Rises-high low a b [] le h = omega (arith, le, h)
Rises-high low a b (x ∷ xs) le h = (h.0, Rises-high x.2 a b xs le h.1)

Rises-append :
    (low n : ℕ) (xs : List Made) (type : PacketType) (data' : Bytes)
    → Rises low n xs
    → Rises low (n + 1) (xs ++ (type, data', n + 1) ∷ [])
Rises-append low n [] type data' h = (omega (arith, h), omega arith)
Rises-append low n (x ∷ xs) type data' h = (h.0, Rises-append x.2 n xs type data' h.1)

pub IsNumbered-rest :
    (m : Bytes) (rest : List Bytes) (n : ℕ) → IsNumbered (m ∷ rest, n) → IsNumbered (rest, n)
IsNumbered-rest m rest n ([], queue, rises) = absurd (cc)
IsNumbered-rest m rest n (x ∷ xs, queue, rises) =
    (xs, cc, Rises-low 0 x.2 n xs (omega arith) rises.1)

map-append_one :
    (xs : List Made) (x : Made) → map message (xs ++ x ∷ []) ≡ map message xs ++ message x ∷ []
map-append_one [] x = refl
map-append_one (y ∷ xs) x = ap (λ l. message y ∷ l) (map-append_one xs x)

module _ ⦃p : Platform⦄ where
  open p use {Endpoint}

  abbrev pub numbering : Server → List Bytes × ℕ
  numbering s = (s.send_queue, s.sequence_number)

  pub announce-IsNumbered :
      (type : PacketType) (data' : Bytes) (s : Server)
      → IsNumbered (numbering s)
      → IsNumbered (numbering (announce type data' s))
  unfolding announce
  announce-IsNumbered type data' s (made, queue, rises) = (
    made ++ (type, data', s.sequence_number + 1) ∷ [],
    ap (λ l. l ++ message (type, data', s.sequence_number + 1) ∷ []) queue
        ∙ sym (map-append_one made (type, data', s.sequence_number + 1)),
    Rises-append 0 s.sequence_number made type data' rises,
  )

  -- A packet that is sent at once takes a number, too.
  reply-IsNumbered :
      (type : PacketType) (e : Endpoint) (s : Server)
      → IsNumbered (numbering s)
      → IsNumbered (numbering (reply type e s))
  unfolding reply
  reply-IsNumbered type e s (made, queue, rises) =
      (made, queue, Rises-high 0 s.sequence_number _ made (omega arith) rises)

  numbering-new_client :
      (ids : List ℕ) (e : Endpoint) (s : Server) → numbering (new_client ids e s).0 ≡ numbering s
  unfolding new_client
  numbering-new_client [] e s = refl
  numbering-new_client (id ∷ ids) e s = refl

  numbering-create_client :
      (e : Endpoint) (s : Server) → numbering (create_client e s).0 ≡ numbering s
  unfolding create_client
  numbering-create_client e s = elim (Option-cases (find_client e s.clients)) [
    | inl q ↦ rw (q, create_client) (numbering-new_client s.available_ids e s)
    | inr ((id, c), q) ↦ rw (q, create_client)
  ]

  pub req_connect_data-IsNumbered :
      (e : Endpoint) (s : Server)
      → IsNumbered (numbering s)
      → IsNumbered (numbering (req_connect_data e s).0)
  unfolding req_connect_data
  req_connect_data-IsNumbered e s h =
      let s' = (create_client e s).0 in
      reply-IsNumbered (if s'.game_running then game_started else game_not_started) e s'
        (subst IsNumbered (sym (numbering-create_client e s)) h)

  pub disconnect_data-IsNumbered :
      (e : Endpoint) (s : Server)
      → IsNumbered (numbering s)
      → IsNumbered (numbering (disconnect_data e s).0)
  unfolding disconnect_data
  disconnect_data-IsNumbered e s h = elim (Option-cases (find_client e s.clients)) [
    | inl q ↦ rw (q, disconnect_data) (reply-IsNumbered none_packet e s h)
    | inr ((id, c), q) ↦ rw (q, disconnect_data) h
  ]
