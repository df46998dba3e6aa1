-- ===== src/Client/MainLoop/Ends.antt =====
-- How `main_loop` ends.
use bee_r_type.Prelude.{
  zero, suc, ◌≡◌, refl, true, false, inl, inr, List, [], ◌∷◌, Bool-cases, thrown, ok, Result-cases,
  sym, subst, if_true, Exception, ap, ◌∙◌, >>=-ok, ok-injective,
}
use bee_r_type.Prelude.Int.{pos}
use bee_r_type.Prelude.Table.{same_ℤ}
use bee_r_type.Platform.{Platform}
use bee_r_type.Network.Packet.{disconnected}
use bee_r_type.Client.{Client, create_packet, send}
use bee_r_type.Client.Sprites.{Graphics}
use bee_r_type.Client.MainLoop.{
  Program, Turn, Outcome, running, returned, terminated, game_part, lobby_part, iterate, after_io,
  main_loop, send_exit_packet, step, and_then, run_io,
}

module _ ⦃p : Platform⦄ where
  module _ ⦃g : Graphics p⦄ where
    -- A result of `main_loop` as it should be.
    abbrev pub Ended : Outcome → Type 0
    Ended (running m) = Unit
    Ended (returned zero m) =
        (m.window.is_open ≡ false) × (c : Client) × (m.client ≡ send (create_packet disconnected) c)
    Ended (returned (suc zero) m) =
        (m.window.is_open ≡ true) × (same_ℤ m.client.packet_data.action (pos 30) ≡ true)
    Ended (returned _ m) = ⊥
    Ended (terminated e) = Unit

    iterate-Ended : (t : Turn) (m : Program) → m.window.is_open ≡ true → Ended (iterate t m)
    unfolding iterate send_exit_packet
    iterate-Ended t m h = elim (Bool-cases (same_ℤ m.client.packet_data.action (pos 30))) [
      | inl q ↦ rw q (h, q)
      | inr q ↦
          let m' = game_part t (lobby_part t m) in
          elim (Bool-cases m'.window.is_open) [
            | inl o ↦ rw (q, o) tt
            | inr o ↦ rw (q, o) (o, m'.client, refl)
          ]
    ]

    pub after_io-window : (t : Turn) (m m' : Program) → after_io t m ≡ ok m' → m'.window ≡ m.window
    unfolding after_io
    after_io-window t m m' h =
        let (r, _, e) = >>=-ok (run_io t.io m.locked m.client) _ h in
        sym (ap (λ n. n.window) (ok-injective e))

    pub step_lem :
        (t : Turn) (m m' : Program)
        → m.window.is_open ≡ true
        → after_io t m ≡ ok m'
        → step t m ≡ iterate t m'
    unfolding step
    step_lem t m m' opened io = if_true _ _ opened ∙ rw io

    pub step_thrown :
        (t : Turn) (m : Program) {e : Exception}
        → m.window.is_open ≡ true
        → after_io t m ≡ thrown e
        → step t m ≡ terminated e
    unfolding step
    step_thrown t m opened io = if_true _ _ opened ∙ rw io

    step-Ended : (t : Turn) (m : Program) → Ended (step t m)
    unfolding step send_exit_packet
    step-Ended t m = elim (Bool-cases m.window.is_open) [
      | inr shut ↦ rw (shut, step) (refl, m.client, refl)
      | inl opened ↦ elim (Result-cases (after_io t m)) [
        | inl (e, q) ↦ subst Ended (sym (step_thrown t m opened q)) tt
        | inr (m', q) ↦
            subst Ended (sym (step_lem t m m' opened q))
              (iterate-Ended t m' (ap (λ w. w.is_open) (after_io-window t m m' q) ∙ opened))
      ]
    ]

    and_then-Ended :
        (o : Outcome) (next : Program → Outcome)
        → Ended o
        → ((m : Program) → Ended (next m))
        → Ended (and_then o next)
    and_then-Ended (running m) next h rest = rest m
    and_then-Ended (returned n m) next h rest = h
    and_then-Ended (terminated e) next h rest = tt

    -- Whatever the other thread receives and sends and whatever the window reports, the result of
    -- `main_loop` is right: it returns 0 only where the window is closed, and then the packet that it
    -- handed to the socket last is DISCONNECTED; it returns 1 only where the window is open and the
    -- client holds GAME_STARTED; it returns nothing else.
    pub main_loop-Ended : (ts : List Turn) (m : Program) → Ended (main_loop ts m)
    unfolding main_loop
    main_loop-Ended [] m = tt
    main_loop-Ended (t ∷ ts) m =
        and_then-Ended (step t m) (main_loop ts) (step-Ended t m) (main_loop-Ended ts)
