-- ===== src/Ecs/Systems/Flying.antt =====
-- What `projectileSystem` does to the components of every entity.
use mathlib.Core.Path.{ap₂}
use bee_r_type.Prelude.{
  ℕ, zero, suc, ◌+◌, ◌≤◌, ◌≡◌, refl, ap, ◌∙◌, inl, inr, true, false, Option, none, some, ltb, ◌==◌,
  if◌then◌else◌, ok, ◌>>=◌, Bool-cases, Option-cases, arith, ==_iff, length,
}
use bee_r_type.Platform.{Platform}
use bee_r_type.Ecs.SparseArray
use bee_r_type.Ecs.SparseArray.{SparseArray}
use bee_r_type.Ecs.SparseArray.View.{view_outside}
use bee_r_type.Ecs.Components.{Position, Velocity, Projectile}
use bee_r_type.Ecs.Registry.{
  Kind, position, velocity, projectile, Component, Registry, find_array, get_components,
}
use bee_r_type.Ecs.Registry.Storage.{cell, cell_in}
use bee_r_type.Ecs.Registry.Lifetime.{IsWired}
use bee_r_type.Ecs.Systems.Outcomes.{Outcome, outcome, after, Changed}
use bee_r_type.Ecs.Systems.Iteration.{IsReady, IsReady-Changed, outcome_at, projectile_at_any}
use bee_r_type.Ecs.Systems.{projectile_at, projectile_from, projectile_system}

ltb_zero : (j : ℕ) → ltb j 0 ≡ false
ltb_zero j = ground arith

module _ ⦃p : Platform⦄ where
  -- The components of all entities from an index on have the outcome of their entity.
  pub record Flown (i : ℕ) (r r' : Registry) : Type 0 where
    pub wired : IsWired r'
    pub cells :
        (k : Kind) (j : ℕ)
        → cell k r'.arrays j
          ≡ (if ltb j i then cell k r.arrays j else after (outcome_at r j) k (cell k r.arrays j))

  Flown-end :
      (i : ℕ) (r : Registry)
      → IsReady r
      → ((j : ℕ) → i ≤ j → cell projectile r.arrays j ≡ none)
      → Flown i r r
  Flown-end i r h none_left = record {
    wired = h.wired;
    cells = λ k j. elim (Bool-cases (ltb j i)) [
      | inl before ↦ rw before
      | inr behind ↦ rw (behind, none_left j (ground arith))
    ];
  }

  -- An entity behind the one that changed has the outcome that it had.
  after_others :
      (i j : ℕ) (c : Outcome) (r m : Registry) (k : Kind)
      → Changed i c r m
      → (j == i) ≡ false
      → after (outcome_at m j) k (cell k m.arrays j) ≡ after (outcome_at r j) k (cell k r.arrays j)
  after_others i j c r m k d ne =
      let same : (k : Kind) → cell k m.arrays j ≡ cell k r.arrays j = λ k. d.cells k j ∙ rw ne in
      ap₂ (λ o x. after o k x)
        (ap₂
          (λ (f : Option Position → Option Velocity → Outcome)
              (x : Option Position × Option Velocity).
            f x.0 x.1)
          (ap outcome (same projectile)) (ap₂ (λ a b. (a, b)) (same position) (same velocity)))
        (same k)

  Flown-step :
      (i : ℕ) (r m r' : Registry)
      → Changed i (outcome_at r i) r m
      → Flown (i + 1) m r'
      → Flown i r r'
  Flown-step i r m r' d f = record {
    wired = f.wired;
    cells = λ k j. f.cells k j ∙ elim (Bool-cases (j == i)) [
      | inl here ↦
          let up : ltb j (i + 1) ≡ true = ground arith in
          let at_i : ltb j i ≡ false = ground arith in
          rw (up, at_i) (d.cells k j ∙ rw (here, (==_iff j i).0 here))
      | inr there ↦ elim (Bool-cases (ltb j i)) [
        | inl before ↦
            let up : ltb j (i + 1) ≡ true = ground arith in rw (up, before) (d.cells k j ∙ rw there)
        | inr behind ↦
            let up : ltb j (i + 1) ≡ false = ground arith in
            rw (up, behind) (after_others i j _ r m k d there)
      ]
    ];
  }

  none_behind :
      (i left : ℕ) (r m : Registry) {c : Outcome}
      → Changed i c r m
      → ((j : ℕ) → i + suc left ≤ j → cell projectile r.arrays j ≡ none)
      → (j : ℕ) → i + 1 + left ≤ j
      → cell projectile m.arrays j ≡ none
  none_behind i left r m d rest j le =
      let ne : (j == i) ≡ false = ground arith in
      d.cells projectile j ∙ rw ne (rest j (omega arith))

  get_components-found :
      (k : Kind) (r : Registry) {xs : SparseArray (Component k)}
      → find_array k r.arrays ≡ some xs
      → get_components k r ≡ ok xs
  unfolding get_components
  get_components-found k r found = rw (found, get_components)

  projectile_from-inside :
      (left i : ℕ) (xs : SparseArray Projectile) (r m : Registry)
      → get_components projectile r ≡ ok xs
      → ltb i (length xs) ≡ true
      → projectile_at i (SparseArray.at i xs).1 r ≡ ok m
      → projectile_from (suc left) i r ≡ projectile_from left (i + 1) m
  unfolding projectile_from SparseArray.size
  projectile_from-inside left i xs r m got inside done = rw (got, ◌>>=◌, inside, done)

  projectile_from-outside :
      (left i : ℕ) (xs : SparseArray Projectile) (r : Registry)
      → get_components projectile r ≡ ok xs
      → ltb i (length xs) ≡ false
      → projectile_from (suc left) i r ≡ ok r
  unfolding projectile_from SparseArray.size
  projectile_from-outside left i xs r got outside = rw (got, ◌>>=◌, outside)

  projectile_from_lem :
      (left i : ℕ) (r : Registry)
      → IsReady r
      → ((j : ℕ) → i + left ≤ j → cell projectile r.arrays j ≡ none)
      → (r' : Registry) × (projectile_from left i r ≡ ok r') × Flown i r r'
  unfolding projectile_from
  projectile_from_lem zero i r h rest = (r, refl, Flown-end i r h (λ j le. rest j (omega arith)))
  projectile_from_lem (suc left) i r h rest = elim (Option-cases (find_array projectile r.arrays)) [
    | inl q ↦ absurd (h.projectiles q)
    | inr (xs, found) ↦ elim (Bool-cases (ltb i (length xs))) [
      | inl inside ↦
          let (m, first, d) = projectile_at_any i xs r h found in
          let (r', later, f) =
            projectile_from_lem left (i + 1) m (IsReady-Changed i _ r m h d)
              (none_behind i left r m d rest) in
          (
            r',
            projectile_from-inside left i xs r m (get_components-found projectile r found) inside
                  first
                ∙ later,
            Flown-step i r m r' d f,
          )
      | inr outside ↦ (
        r,
        projectile_from-outside left i xs r (get_components-found projectile r found) outside,
        Flown-end i r h (λ j le. ap (λ o. cell_in o j) found ∙ view_outside xs j (ground arith)),
      )
    ]
  ]

  projectile_system-found :
      (xs : SparseArray Projectile) (r : Registry)
      → get_components projectile r ≡ ok xs
      → projectile_system r ≡ projectile_from (length xs) 0 r
  unfolding projectile_system SparseArray.size
  projectile_system-found xs r got = rw got

  -- `projectileSystem` succeeds on a registry that erases exactly the kinds that have an array and has
  -- those of positions, velocities and projectiles. An entity with a component of each of these three
  -- moves by its velocity times the speed of its projectile, or, where that is behind the right border,
  -- loses all its components; every other component of every entity is as before.
  pub projectile_system_lem :
      (r : Registry)
      → IsReady r
      → (r' : Registry) × (projectile_system r ≡ ok r')
        × IsWired r'
        × ((k : Kind) (j : ℕ) → cell k r'.arrays j ≡ after (outcome_at r j) k (cell k r.arrays j))
  projectile_system_lem r h = elim (Option-cases (find_array projectile r.arrays)) [
    | inl q ↦ absurd (h.projectiles q)
    | inr (xs, found) ↦
        let (r', done, f) =
          projectile_from_lem (length xs) 0 r h
            (λ j le. ap (λ o. cell_in o j) found ∙ view_outside xs j (omega arith)) in
        (
          r',
          projectile_system-found xs r (get_components-found projectile r found) ∙ done,
          f.wired,
          λ k j. f.cells k j ∙ rw (ltb_zero j),
        )
  ]
