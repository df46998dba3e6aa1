-- ===== src/Ecs/Systems/Moving.antt =====
-- What `positionSystem` does to the positions.
use mathlib.Core.Path.{ap₂}
use bee_r_type.Prelude.{
  ℕ, zero, suc, ◌+◌, ◌<◌, ◌≡◌, refl, ◌∙◌, inl, inr, true, ◌&&◌, ltb, Bool-cases, arith, length, leb,
  if_false,
}
use bee_r_type.Platform.{Platform}
use bee_r_type.Ecs.SparseArray
use bee_r_type.Ecs.SparseArray.{SparseArray}
use bee_r_type.Ecs.Components.{Position, Velocity}
use bee_r_type.Ecs.Systems.{position_from, position_system}

at_inside {ℓ} :
    {A : Type ℓ} (i : ℕ) (xs : SparseArray A) → i < length xs → (SparseArray.at i xs).0 ≡ xs
unfolding SparseArray.at SparseArray.grow
at_inside i xs h = if_false {b = leb (length xs) i} _ _ (ground arith)

and_left : (i m n : ℕ) → (ltb i m && ltb i n) ≡ true → i < m
and_left i m n h = ground arith

and_right : (i m n : ℕ) → (ltb i m && ltb i n) ≡ true → i < n
and_right i m n h = ground arith

module _ ⦃p : Platform⦄ where
  position_from_lem :
      (left i : ℕ) (s : SparseArray Position × SparseArray Velocity) → position_from left i s ≡ s
  unfolding position_from SparseArray.size
  position_from_lem zero i s = refl
  position_from_lem (suc left) i (ps, vs) =
      elim (Bool-cases (ltb i (length ps) && ltb i (length vs))) [
        | inl q ↦
            rw (q, position_from)
              (position_from_lem left (i + 1) _
                ∙ ap₂ (λ a b. (a, b)) (at_inside i ps (and_left i (length ps) (length vs) q))
                    (at_inside i vs (and_right i (length ps) (length vs) q)))
        | inr q ↦ rw (q, position_from)
      ]

  -- `positionSystem` moves nothing: it leaves the arrays of positions and velocities as they are.
  pub position_system_lem :
      (s : SparseArray Position × SparseArray Velocity) → position_system s ≡ s
  unfolding position_system
  position_system_lem s = position_from_lem _ 0 s
