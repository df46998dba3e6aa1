-- ===== src/Ecs/Systems/Iteration.antt =====
-- One iteration of the loop of `projectileSystem`.
use mathlib.Core.Path.{ap₂}
use bee_r_type.Prelude.{
  subst, ℕ, ◌≡◌, refl, sym, ap, ◌∙◌, ◌≢◌, inl, inr, Option, none, some, ok, Option-cases,
}
use bee_r_type.Platform.{Platform}
use bee_r_type.Ecs.SparseArray
use bee_r_type.Ecs.SparseArray.{SparseArray}
use bee_r_type.Ecs.SparseArray.View.{view-at}
use bee_r_type.Ecs.Components.{Position, Velocity, Projectile}
use bee_r_type.Ecs.Registry.{
  Kind, position, velocity, projectile, Registry, find_array, put_array, get_components,
}
use bee_r_type.Ecs.Registry.Storage.{cell, cell_in}
use bee_r_type.Ecs.Registry.Lifetime.{IsWired}
use bee_r_type.Ecs.Registry.Killing.{SameKinds, put_array-SameKinds, IsWired-along}
use bee_r_type.Ecs.Systems.Outcomes.{
  Outcome, outcome, Changed, Changed-stays, Changed-before, fly_lem,
}
use bee_r_type.Ecs.Systems.{projectile_at}

module _ ⦃p : Platform⦄ where
  -- What the system takes from the registry that it runs on.
  pub record IsReady (r : Registry) : Type 0 where
    pub wired : IsWired r
    pub positions : find_array position r.arrays ≢ none
    pub velocities : find_array velocity r.arrays ≢ none
    pub projectiles : find_array projectile r.arrays ≢ none

  pub IsReady-Changed :
      (i : ℕ) (c : Outcome) (r r' : Registry) → IsReady r → Changed i c r r' → IsReady r'
  IsReady-Changed i c r r' h d = record {
    wired = d.wired;
    positions = (d.same position).0 h.positions;
    velocities = (d.same velocity).0 h.velocities;
    projectiles = (d.same projectile).0 h.projectiles;
  }

  -- The registry after both arrays were read at an index.
  abbrev grown : ℕ → SparseArray Position → SparseArray Velocity → Registry → Registry
  grown i ps vs r = record r {
    arrays =
        put_array velocity (SparseArray.at i vs).0
          (put_array position (SparseArray.at i ps).0 r.arrays);
  }

  grown-cells :
      (i : ℕ) (ps : SparseArray Position) (vs : SparseArray Velocity) (r : Registry)
      → find_array position r.arrays ≡ some ps
      → find_array velocity r.arrays ≡ some vs
      → (k : Kind) (j : ℕ) → cell k (grown i ps vs r).arrays j ≡ cell k r.arrays j
  grown-cells i ps vs r found found' position j = rw found ((view-at i ps).1 j)
  grown-cells i ps vs r found found' velocity j = rw found' ((view-at i vs).1 j)
  grown-cells i ps vs r found found' _ j = refl

  grown-SameKinds :
      (i : ℕ) (ps : SparseArray Position) (vs : SparseArray Velocity) (r : Registry)
      → find_array position r.arrays ≡ some ps
      → find_array velocity r.arrays ≡ some vs
      → SameKinds r (grown i ps vs r)
  grown-SameKinds i ps vs r found found' k =
      let m = record r { arrays = put_array position (SparseArray.at i ps).0 r.arrays } in
      let a = put_array-SameKinds position ps (SparseArray.at i ps).0 r found k in
      let b = put_array-SameKinds velocity vs (SparseArray.at i vs).0 m found' k in
      (λ q. b.0 (a.0 q), λ q. a.1 (b.1 q))

  projectile_at-some :
      (i : ℕ) (proj : Projectile) (ps : SparseArray Position) (vs : SparseArray Velocity)
      (r : Registry)
      → IsWired r
      → find_array position r.arrays ≡ some ps
      → find_array velocity r.arrays ≡ some vs
      → (r' : Registry) × (projectile_at i (some proj) r ≡ ok r')
        × Changed i (outcome (some proj) (cell position r.arrays i) (cell velocity r.arrays i)) r r'
  unfolding projectile_at get_components
  projectile_at-some i proj ps vs r w found found' =
      let m = grown i ps vs r in
      let same = grown-SameKinds i ps vs r found found' in
      let (r', done, d) =
        fly_lem i proj (SparseArray.at i ps).1 (SparseArray.at i vs).1 (SparseArray.at i ps).0 m
          refl (IsWired-along r m refl same w) in
      (
        r',
        rw (found, found', projectile_at, get_components) done,
        subst (λ c. Changed i c r r')
            (ap₂ (outcome (some proj)) ((view-at i ps).0 ∙ sym (ap (λ o. cell_in o i) found))
              ((view-at i vs).0 ∙ sym (ap (λ o. cell_in o i) found')))
            (Changed-before i _ r m r' (grown-cells i ps vs r found found') same d),
      )

  -- The outcome that the registry holds for an entity.
  abbrev pub outcome_at : Registry → ℕ → Outcome
  outcome_at r i =
      outcome (cell projectile r.arrays i) (cell position r.arrays i) (cell velocity r.arrays i)

  projectile_at_lem :
      (i : ℕ) (o : Option Projectile) (r : Registry)
      → IsReady r
      → (r' : Registry) × (projectile_at i o r ≡ ok r')
        × Changed i (outcome o (cell position r.arrays i) (cell velocity r.arrays i)) r r'
  unfolding projectile_at
  projectile_at_lem i none r h = (r, refl, Changed-stays i r h.wired)
  projectile_at_lem i (some proj) r h = elim (Option-cases (find_array position r.arrays)) [
    | inl q ↦ absurd (h.positions q)
    | inr (ps, found) ↦ elim (Option-cases (find_array velocity r.arrays)) [
      | inl q ↦ absurd (h.velocities q)
      | inr (vs, found') ↦ (projectile_at-some i proj ps vs r h.wired found found')
    ]
  ]

  pub projectile_at_any :
      (i : ℕ) (xs : SparseArray Projectile) (r : Registry)
      → IsReady r
      → find_array projectile r.arrays ≡ some xs
      → (m : Registry) × (projectile_at i (SparseArray.at i xs).1 r ≡ ok m)
        × Changed i (outcome_at r i) r m
  projectile_at_any i xs r h found =
      let (m, done, d) = projectile_at_lem i (SparseArray.at i xs).1 r h in
      (
        m,
        done,
        subst (λ o. Changed i (outcome o (cell position r.arrays i) (cell velocity r.arrays i)) r m)
            ((view-at i xs).0 ∙ sym (ap (λ o. cell_in o i) found)) d,
      )
