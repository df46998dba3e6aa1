-- ===== src/Process/Wire.antt =====
-- What the clients make of the datagrams that the server's process sends.
use bee_r_type.Prelude.{ℕ, ◌+◌, ◌^◌, ◌<◌, ◌≡◌, ◌∙◌, ap, List, [], ◌∷◌, ◌++◌, All, ok}
use bee_r_type.Prelude.Int.{ℤ}
use bee_r_type.Prelude.Decimal.{Bytes, to_string}
use bee_r_type.Platform.{Platform, IsPrinting}
use bee_r_type.Network.Packet.{PacketType, type_code}
use bee_r_type.Network.Segments.{IsPlain, join}
use bee_r_type.Server.{success}
use bee_r_type.Server.News.{IsSegment, plain, printed, IsMessage}
use bee_r_type.Client.{Client, handle_receive, parse_elements}
use bee_r_type.Client.Parsing.{deserialise-written, parse_message_lem, type_code-byte}
use bee_r_type.Process.{Process, Reach, steps, start_process}
use bee_r_type.Process.Sound.{Reach-ProcessSound, started-ProcessSound}

module _ ⦃p : Platform⦄ where
  open p use {Endpoint}

  IsSegment-IsPlain : (laws : IsPrinting p) {s : Bytes} → IsSegment s → IsPlain s
  IsSegment-IsPlain laws (plain s h) = h
  IsSegment-IsPlain laws (printed a) = laws.print-plain a

  segments-IsPlain : (laws : IsPrinting p) (ss : List Bytes) → All IsSegment ss → All IsPlain ss
  segments-IsPlain laws [] h = tt
  segments-IsPlain laws (s ∷ ss) h = (IsSegment-IsPlain laws h.0, segments-IsPlain laws ss h.1)

  -- The client that is handed the datagram reads a type, five segments of data and a number, and goes on
  -- with them.
  abbrev pub Reads : Client → ℕ → Bytes → Type 0
  Reads c now m =
      (t : PacketType) × (d₀ d₁ d₂ d₃ d₄ : Bytes) × (n : ℕ) × (m
        ≡ type_code t ∷ (b';' ∷ (join (d₀ ∷ d₁ ∷ d₂ ∷ d₃ ∷ []) d₄ ++ (b';' ∷ to_string n))))
      × All IsPlain (d₀ ∷ d₁ ∷ d₂ ∷ d₃ ∷ d₄ ∷ [])
      × (handle_receive success now m c
          ≡ ok (
              parse_elements now (type_code t) (d₀ ∷ d₁ ∷ d₂ ∷ d₃ ∷ d₄ ∷ to_string n ∷ [])
                (record c { packets_received = c.packets_received + 1; received_data = m })))

  IsMessage-Reads :
      (laws : IsPrinting p) (c : Client) (now : ℕ) (m : Bytes) → IsMessage m → Reads c now m
  unfolding handle_receive
  IsMessage-Reads laws c now m ((t, data', n), e, (d₀, d₁, d₂, d₃, d₄, five, h)) =
      let plain = segments-IsPlain laws (d₀ ∷ d₁ ∷ d₂ ∷ d₃ ∷ d₄ ∷ []) h in
      let bytes : m
          ≡ type_code t ∷ (b';' ∷ (join (d₀ ∷ d₁ ∷ d₂ ∷ d₃ ∷ []) d₄ ++ (b';' ∷ to_string n))) =
        e ∙ ap (λ d. type_code t ∷ (b';' ∷ (d ++ (b';' ∷ to_string n)))) five in
      let c' = record c { packets_received = c.packets_received + 1; received_data = m } in
      (
        t,
        d₀,
        d₁,
        d₂,
        d₃,
        d₄,
        n,
        bytes,
        plain,
        parse_message_lem now (type_code t) _ c' _ bytes (type_code-byte t)
            (deserialise-written d₀ d₁ d₂ d₃ d₄ n plain),
      )

  All-Reads :
      (laws : IsPrinting p) (c : Client) (now : ℕ) (sent : List (Bytes × Endpoint))
      → All (λ x. IsMessage x.0) sent
      → All (λ x. Reads c now x.0) sent
  All-Reads laws c now [] h = tt
  All-Reads laws c now (x ∷ sent) h =
      (IsMessage-Reads laws c now x.0 h.0, All-Reads laws c now sent h.1)

  -- Every datagram that the server's process has sent, after every sequence of fewer than 2 ^ 32 whole
  -- steps of its threads, in any order and whatever it received, can be read by a client in any state, if no printed `float` holds a `;`: the client takes the type, exactly five segments of
  -- data and the number from it and goes on with them, and does not throw.
  pub sent-Reads :
      (laws : IsPrinting p) (unspecified : Endpoint) (unset : ℕ) (total : ℤ) {y : Process}
      (r : Reach (start_process unspecified unset total) y) (c : Client) (now : ℕ)
      → steps r < 2 ^ 32
      → All (λ x. Reads c now x.0) y.world.game.server.sent
  sent-Reads laws unspecified unset total {y} r c now few =
      let h = Reach-ProcessSound r few (started-ProcessSound unspecified unset total) in
      All-Reads laws c now y.world.game.server.sent h.server.written.1
