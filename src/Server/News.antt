-- ===== src/Server/News.antt =====
-- What the server's packets say: five segments, whatever the event is.
use bee_r_type.Prelude.{
  ℕ, ◌+◌, ◌≡◌, refl, subst, sym, inl, inr, List, [], ◌∷◌, ◌++◌, All, All-append, codes,
  Option-cases, if◌then◌else◌,
}
use bee_r_type.Prelude.Map.{Map}
use bee_r_type.Prelude.Decimal.{Bytes, to_string}
use bee_r_type.Platform.{Platform}
use bee_r_type.Network.Packet.{PacketType, type_code, none_packet, game_started, game_not_started}
use bee_r_type.Network.Segments.{IsPlain, join, to_string-IsPlain}
use bee_r_type.Server.{
  Server, ClientRegister, packet_data, announce, reply, find_client, new_client, create_client,
  req_connect_data, disconnect_data,
}
use bee_r_type.Game.State.{entity_data, destroy_data}
use bee_r_type.Server.Sending.{copies}

pub packet_data-join :
    (t : Bytes) (ss : List Bytes) (d : Bytes) → packet_data (join (t ∷ ss) d) ≡ join (t ∷ ss) d
unfolding packet_data
packet_data-join [] ss d = refl
packet_data-join (c ∷ t) ss d = refl

-- A packet that was created: its type, its data and its number.
abbrev pub Made : Type 0
Made = PacketType × Bytes × ℕ

abbrev pub message : Made → Bytes
message (type, data', n) = type_code type ∷ (b';' ∷ (packet_data data' ++ (b';' ∷ to_string n)))

module _ ⦃p : Platform⦄ where
  open p use {Real, print_real, Endpoint}

  -- One segment of a packet's data: a printed `float`, or a text without `;`.
  pub data IsSegment : Bytes → Type 0 where
    plain : (s : Bytes) → IsPlain s → IsSegment s
    printed : (a : Real) → IsSegment (print_real a)

  -- The data that a packet then has are five segments.
  abbrev pub IsNews : Bytes → Type 0
  IsNews data' =
      (d₀ d₁ d₂ d₃ d₄ : Bytes) × (packet_data data' ≡ join (d₀ ∷ d₁ ∷ d₂ ∷ d₃ ∷ []) d₄)
      × All IsSegment (d₀ ∷ d₁ ∷ d₂ ∷ d₃ ∷ d₄ ∷ [])

  joined-IsNews :
      {d₀ d₁ d₂ d₃ d₄ : Bytes}
      → IsSegment d₀
      → IsSegment d₁
      → IsSegment d₂
      → IsSegment d₃
      → IsSegment d₄
      → IsNews (join (d₀ ∷ d₁ ∷ d₂ ∷ d₃ ∷ []) d₄)
  joined-IsNews {d₀} {d₁} {d₂} {d₃} {d₄} s₀ s₁ s₂ s₃ s₄ = (
    d₀,
    d₁,
    d₂,
    d₃,
    d₄,
    packet_data-join d₀ (d₁ ∷ d₂ ∷ d₃ ∷ []) d₄,
    (s₀, (s₁, (s₂, (s₃, (s₄, tt))))),
  )

  number-IsSegment : (n : ℕ) → IsSegment (to_string n)
  number-IsSegment n = plain (to_string n) (to_string-IsPlain n)

  zero-IsSegment : IsSegment (codes "0")
  zero-IsSegment = plain (codes "0") ((λ e. cc), tt)

  one_less-IsSegment : IsSegment (codes "-1")
  one_less-IsSegment = plain (codes "-1") ((λ e. cc), ((λ e. cc), tt))

  -- No data stands for five times -1.
  pub nothing-IsNews : IsNews []
  unfolding packet_data
  nothing-IsNews =
      joined-IsNews one_less-IsSegment one_less-IsSegment one_less-IsSegment one_less-IsSegment
        one_less-IsSegment

  -- An identifier, two coordinates and two speeds.
  entity-IsNews :
      (id : ℕ) (a b : Real) {c d : Bytes}
      → IsSegment c
      → IsSegment d
      → IsNews (join (to_string id ∷ print_real a ∷ print_real b ∷ c ∷ []) d)
  entity-IsNews id a b s₃ s₄ = joined-IsNews (number-IsSegment id) (printed a) (printed b) s₃ s₄

  pub still-IsNews :
      (id : ℕ) (a b : Real) → IsNews (entity_data id (print_real a) (print_real b) (codes ";0;0"))
  still-IsNews id a b = entity-IsNews id a b zero-IsSegment zero-IsSegment

  pub bullet-IsNews :
      (id : ℕ) (a b : Real) → IsNews (entity_data id (print_real a) (print_real b) (codes ";5;0"))
  bullet-IsNews id a b = entity-IsNews id a b (plain (codes "5") ((λ e. cc), tt)) zero-IsSegment

  pub enemy-IsNews :
      (id : ℕ) (a b : Real) → IsNews (entity_data id (print_real a) (print_real b) (codes ";-1;0"))
  enemy-IsNews id a b = entity-IsNews id a b one_less-IsSegment zero-IsSegment

  pub boss-IsNews :
      (id : ℕ) (a b : Real)
      → IsNews (entity_data id (print_real a) (print_real b) (codes ";-0.1;0"))
  boss-IsNews id a b =
      entity-IsNews id a b
        (plain (codes "-0.1") ((λ e. cc), ((λ e. cc), ((λ e. cc), ((λ e. cc), tt))))) zero-IsSegment

  pub destroyed-IsNews : (id : ℕ) → IsNews (destroy_data id)
  destroyed-IsNews id =
      joined-IsNews (number-IsSegment id) zero-IsSegment zero-IsSegment zero-IsSegment
        zero-IsSegment

  -- A message of the server.
  abbrev pub IsMessage : Bytes → Type 0
  IsMessage m = (x : Made) × (m ≡ message x) × IsNews x.1

  -- All messages that wait, and all that were handed to the socket.
  abbrev pub IsWritten : List Bytes × List (Bytes × Endpoint) → Type 0
  IsWritten (queue, sent) = All IsMessage queue × All (λ x. IsMessage x.0) sent

  abbrev pub outgoing : Server → List Bytes × List (Bytes × Endpoint)
  outgoing s = (s.send_queue, s.sent)

  pub announce-IsWritten :
      (type : PacketType) (data' : Bytes) (s : Server)
      → IsNews data'
      → IsWritten (outgoing s)
      → IsWritten (outgoing (announce type data' s))
  unfolding announce
  announce-IsWritten type data' s news (queue, sent) = (
    All-append IsMessage s.send_queue _ queue
        (((type, data', s.sequence_number + 1), refl, news), tt),
    sent,
  )

  reply-IsWritten :
      (type : PacketType) (e : Endpoint) (s : Server)
      → IsWritten (outgoing s)
      → IsWritten (outgoing (reply type e s))
  unfolding reply
  reply-IsWritten type e s (queue, sent) = (
    queue,
    All-append (λ x. IsMessage x.0) s.sent _ sent
        (((type, [], s.sequence_number + 1), refl, nothing-IsNews), tt),
  )

  outgoing-new_client :
      (ids : List ℕ) (e : Endpoint) (s : Server) → outgoing (new_client ids e s).0 ≡ outgoing s
  unfolding new_client
  outgoing-new_client [] e s = refl
  outgoing-new_client (id ∷ ids) e s = refl

  outgoing-create_client : (e : Endpoint) (s : Server) → outgoing (create_client e s).0 ≡ outgoing s
  unfolding create_client
  outgoing-create_client e s = elim (Option-cases (find_client e s.clients)) [
    | inl q ↦ rw (q, create_client) (outgoing-new_client s.available_ids e s)
    | inr ((id, c), q) ↦ rw (q, create_client)
  ]

  pub req_connect_data-IsWritten :
      (e : Endpoint) (s : Server)
      → IsWritten (outgoing s)
      → IsWritten (outgoing (req_connect_data e s).0)
  unfolding req_connect_data
  req_connect_data-IsWritten e s h =
      let s' = (create_client e s).0 in
      reply-IsWritten (if s'.game_running then game_started else game_not_started) e s'
        (subst IsWritten (sym (outgoing-create_client e s)) h)

  pub disconnect_data-IsWritten :
      (e : Endpoint) (s : Server)
      → IsWritten (outgoing s)
      → IsWritten (outgoing (disconnect_data e s).0)
  unfolding disconnect_data
  disconnect_data-IsWritten e s h = elim (Option-cases (find_client e s.clients)) [
    | inl q ↦ rw (q, disconnect_data) (reply-IsWritten none_packet e s h)
    | inr ((id, c), q) ↦ rw (q, disconnect_data) h
  ]

  -- A message that all clients are sent.
  pub copies-IsMessage :
      (cs : Map ClientRegister) (m : Bytes) → IsMessage m → All (λ x. IsMessage x.0) (copies cs m)
  copies-IsMessage [] m h = tt
  copies-IsMessage ((id, c) ∷ cs) m h = (h, copies-IsMessage cs m h)
