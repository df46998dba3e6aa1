-- ===== src/Process/Clients.antt =====
-- The server's process and a client together: the client's main loop on what the server sent.
use bee_r_type.Prelude.{
  ℕ, zero, suc, ◌^◌, ◌<◌, ◌≡◌, refl, sym, subst, inl, inr, true, some, List, [], ◌∷◌, All,
  get_elem?, Bool, ◌&&◌, Bool-cases, Succeeds, >>=-Succeeds,
}
use bee_r_type.Prelude.Int.{ℤ, pos}
use bee_r_type.Prelude.Table.{same_ℤ}
use bee_r_type.Prelude.Decimal.{Bytes}
use bee_r_type.Platform.{Platform, IsPrinting}
use bee_r_type.Server.{success, message_size, operation_aborted, other_error}
use bee_r_type.Client.{Client, handle_receive, handle_send, handle_send_timer, handle_ping_timer}
use bee_r_type.Client.Sprites.{Graphics}
use bee_r_type.Client.MainLoop.{
  Io, received, message_sent, send_timer, ping_timer, run_io, Program, Turn, Outcome, running,
  returned, terminated, iterate, after_io, step, and_then, main_loop, game_part, lobby_part,
}
use bee_r_type.Client.MainLoop.Ends.{step_lem}
use bee_r_type.Process.{Process, Reach, steps, start_process}
use bee_r_type.Process.Wire.{Reads, sent-Reads}

module _ ⦃p : Platform⦄ where
  open p use {Endpoint, relock_waits}

  -- A datagram that the client receives is one that the server sent, and is not cut short. It may come late,
  -- more than once, or never, and from a server that sent it to another client.
  abbrev pub IsFrom : List (Bytes × Endpoint) → Io → Type 0
  IsFrom sent (received success now bytes) =
      (i : ℕ) × (e : Endpoint) × (get_elem? sent i ≡ some (bytes, e))
  IsFrom sent (received message_size now bytes) = ⊥
  IsFrom sent _ = Unit

  found {ℓ} :
      (P : Bytes × Endpoint → Type ℓ) (sent : List (Bytes × Endpoint)) (i : ℕ)
      {x : Bytes × Endpoint}
      → All P sent
      → get_elem? sent i ≡ some x
      → P x
  found P [] i h e = absurd (cc)
  found P (y ∷ sent) zero {x} h e = let same : y ≡ x = cc in subst P same h.0
  found P (y ∷ sent) (suc i) h e = found P sent i h.1 e

  -- Any client can read each of the datagrams.
  abbrev Readable : List (Bytes × Endpoint) → Type 0
  Readable sent = (c : Client) (now : ℕ) → All (λ x. Reads c now x.0) sent

  run_io-total :
      (sent : List (Bytes × Endpoint)) (ios : List Io) (locked : Bool) (c : Client)
      → Readable sent
      → All (IsFrom sent) ios
      → Succeeds (run_io ios locked c) (λ _. Unit {0})
  unfolding run_io handle_receive
  run_io-total sent [] locked c reads h = (_, refl, tt)
  run_io-total sent (received success now bytes ∷ ios) locked c reads ((i, e, q), h) =
      elim (Bool-cases (locked && relock_waits)) [
        | inl waits ↦ rw (waits, run_io) (_, refl, tt)
        | inr goes ↦
            let (_, _, _, _, _, _, _, _, _, returns) =
              found (λ x. Reads c now x.0) sent i (reads c now) q in
            rw (goes, run_io)
              (>>=-Succeeds (λ _. Unit {0}) (λ _. Unit {0}) (handle_receive success now bytes c) _
                (_, returns, tt) (λ c' _. run_io-total sent ios true c' reads h))
      ]
  run_io-total sent (received message_size now bytes ∷ ios) locked c reads h = absurd h.0
  run_io-total sent (received operation_aborted now bytes ∷ ios) locked c reads h =
      run_io-total sent ios locked c reads h.1
  run_io-total sent (received other_error now bytes ∷ ios) locked c reads h =
      run_io-total sent ios locked c reads h.1
  run_io-total sent (message_sent e ∷ ios) locked c reads h =
      run_io-total sent ios locked (handle_send e c) reads h.1
  run_io-total sent (send_timer e ∷ ios) locked c reads h =
      run_io-total sent ios locked (handle_send_timer e c) reads h.1
  run_io-total sent (ping_timer e t₁ t₂ t₃ ∷ ios) locked c reads h =
      run_io-total sent ios locked (handle_ping_timer e t₁ t₂ t₃ c) reads h.1

  module _ ⦃g : Graphics p⦄ where
    abbrev pub Survives : Outcome → Type 0
    Survives (running m) = Unit
    Survives (returned n m) = Unit
    Survives (terminated e) = ⊥

    iterate-Survives : (t : Turn) (m : Program) → Survives (iterate t m)
    unfolding iterate
    iterate-Survives t m = elim (Bool-cases (same_ℤ m.client.packet_data.action (pos 30))) [
      | inl q ↦ rw q tt
      | inr q ↦ elim (Bool-cases (game_part t (lobby_part t m)).window.is_open) [
        | inl o ↦ rw (q, o) tt
        | inr o ↦ rw (q, o) tt
      ]
    ]

    step-Survives :
        (sent : List (Bytes × Endpoint)) (t : Turn) (m : Program)
        → Readable sent
        → All (IsFrom sent) t.io
        → Survives (step t m)
    unfolding step after_io
    step-Survives sent t m reads h = elim (Bool-cases m.window.is_open) [
      | inr shut ↦ rw (shut, step) tt
      | inl opened ↦
          let (m', io, _) =
            >>=-Succeeds (λ _. Unit {0}) (λ _. Unit {0}) (run_io t.io m.locked m.client) _
              (run_io-total sent t.io m.locked m.client reads h) (λ r _. (_, refl, tt)) in
          subst Survives (sym (step_lem t m m' opened io)) (iterate-Survives t m')
    ]

    and_then-Survives :
        (o : Outcome) (next : Program → Outcome)
        → Survives o
        → ((m : Program) → Survives (next m))
        → Survives (and_then o next)
    and_then-Survives (running m) next h rest = rest m
    and_then-Survives (returned n m) next h rest = tt
    and_then-Survives (terminated e) next h rest = absurd h

    turns-Survives :
        (sent : List (Bytes × Endpoint)) (ts : List Turn) (m : Program)
        → Readable sent
        → All (λ t. All (IsFrom sent) t.io) ts
        → Survives (main_loop ts m)
    unfolding main_loop
    turns-Survives sent [] m reads h = tt
    turns-Survives sent (t ∷ ts) m reads h =
        and_then-Survives (step t m) (main_loop ts) (step-Survives sent t m reads h.0)
          (λ m'. turns-Survives sent ts m' reads h.1)

    -- A client whose datagrams all come from the server's process, after a sequence of fewer than 2 ^ 32
    -- whole steps of its threads, does not end by an exception, whatever handlers run between its
    -- iterations and whatever the timers and the window report: its main loop goes on or returns. The
    -- datagrams may be lost, repeated and out of order, but are not cut short, no printed `float` holds a
    -- `;`, and locking a mutex that the thread owns waits or goes on.
    pub main_loop-Survives :
        (laws : IsPrinting p) (unspecified : Endpoint) (unset : ℕ) (total : ℤ) {y : Process}
        (r : Reach (start_process unspecified unset total) y) (ts : List Turn) (m : Program)
        → steps r < 2 ^ 32
        → All (λ t. All (IsFrom y.world.game.server.sent) t.io) ts
        → Survives (main_loop ts m)
    main_loop-Survives laws unspecified unset total {y} r ts m few from =
        turns-Survives y.world.game.server.sent ts m
          (λ c now. sent-Reads laws unspecified unset total r c now few) from
