-- ===== src/Game/Loop/Endless.antt =====
-- How the main loop ends: it does not.
use bee_r_type.Prelude.{ℕ, ◌≡◌, refl, sym, ◌∙◌, ◌≢◌, Result-cases, inl, inr, ◌⊎◌, List, [], ◌∷◌, ok}
use bee_r_type.Platform.{Platform}
use bee_r_type.Ecs.Registry.{run_systems}
use bee_r_type.Game.State.{Game}
use bee_r_type.Game.Loop.{
  Times, update_round, Progress, returned, running, failed, update, run_loop, run,
  initialize_players,
}

module _ ⦃p : Platform⦄ where
  update_not_returned : (ts : List Times) (g g' : Game) → update ts g ≢ returned g'
  unfolding update
  update_not_returned [] g g' h = cc
  update_not_returned (t ∷ ts) g g' h = elim (Result-cases (update_round t g)) [
    | inl (e, q) ↦ (let stops : update (t ∷ ts) g ≡ failed e = rw (q, update) in cc)
    | inr (g₁, q) ↦
        let goes_on : update (t ∷ ts) g ≡ update ts g₁ = rw (q, update) in
        update_not_returned ts g₁ g' (sym goes_on ∙ h)
  ]

  pub Progress-cases :
      (x : Progress)
      → ((g : Game) × (x ≡ returned g))
        ⊎ (((g : Game) × (x ≡ running g)) ⊎ ((e : _) × (x ≡ failed e)))
  Progress-cases (returned g) = inl (g, refl)
  Progress-cases (running g) = inr (inl (g, refl))
  Progress-cases (failed e) = inr (inr (e, refl))

  run_loop-update :
      (ts : List Times) (tss : List (List Times)) (g : Game) → run_loop (ts ∷ tss) g ≡ update ts g
  unfolding run_loop
  run_loop-update ts tss g = elim (Progress-cases (update ts g)) [
    | inl (g', q) ↦ absurd (update_not_returned ts g g' q)
    | inr (inl (g', q)) ↦ rw (q, run_loop)
    | inr (inr (e, q)) ↦ rw (q, run_loop)
  ]

  -- Once the players are initialized, `run` does no more than its first call of `update`, which never
  -- returns: `checkPlayersAlive` is not reached, whatever happens to the players and the clients.
  pub run-update :
      (n : ℕ) (ts : List Times) (tss : List (List Times)) (g g₀ : Game)
      → initialize_players n g ≡ ok g₀
      → (run n (ts ∷ tss) g ≡ update ts g₀) × ((g' : Game) → run n (ts ∷ tss) g ≢ returned g')
  unfolding run run_systems
  run-update n ts tss g g₀ h =
      let once : run n (ts ∷ tss) g ≡ update ts g₀ = rw (h, run, run_loop-update) in
      (once, λ g'. rw once (update_not_returned ts g₀ g'))
