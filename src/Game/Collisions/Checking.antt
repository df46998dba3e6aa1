-- ===== src/Game/Collisions/Checking.antt =====
-- The test for a collision.
use native.Mathlib.Omega.{arith}
use bee_r_type.Prelude.{◌≡◌, ap, ◌∙◌, false, ◌&&◌, inl, inr, Bool-cases, ok}
use bee_r_type.Platform.{Platform, IsIeee}
use bee_r_type.Ecs.Components.{Position}
use bee_r_type.Entities.{Body, position_of}
use bee_r_type.Game.Collisions.{check_bodies, distance, overlap}

module _ ⦃p : Platform⦄ where
  open p use {Real, lit, add, sub, lt, square, sqrt}

  overlap_comm : (a b : Position) → overlap a b ≡ overlap b a
  unfolding overlap
  overlap_comm a b = ground arith

  -- What the four overloads of `checkCollision` compute: the entities collide exactly if their distance
  -- exceeds the minimal one and their boxes overlap. The order of the two boxes does not matter.
  pub check_bodies_lem :
      (a b : Body) (min_distance : Real) (pos_a pos_b : Position)
      → position_of a ≡ ok pos_a
      → position_of b ≡ ok pos_b
      → (check_bodies a b min_distance
          ≡ ok (lt min_distance (distance pos_a pos_b) && overlap pos_b pos_a))
  unfolding check_bodies
  check_bodies_lem a b min_distance pos_a pos_b ha hb =
      rw (ha, hb)
        (elim (Bool-cases (lt min_distance (distance pos_a pos_b))) [
          | inl far ↦ rw far (ap ok (overlap_comm pos_a pos_b))
          | inr near ↦ rw near
        ])

  -- Entities at one place do not collide, though their boxes overlap: their distance, 0, is less than
  -- the minimal distance. (Of the arithmetic it takes only what holds of finite numbers.)
  check_bodies_coincident :
      (laws : IsIeee p) (a b : Body) (pos : Position)
      → position_of a ≡ ok pos
      → position_of b ≡ ok pos
      → sub pos.x pos.x ≡ lit 0
      → sub pos.y pos.y ≡ lit 0
      → square (lit 0) ≡ lit 0
      → add (lit 0) (lit 0) ≡ lit 0
      → sqrt (lit 0) ≡ lit 0
      → check_bodies a b (lit 10) ≡ ok false
  unfolding check_bodies distance
  check_bodies_coincident laws a b pos ha hb hx hy h₁ h₂ h₃ =
      let nothing : distance pos pos ≡ lit 0 = rw (distance, hx, hy, h₁, h₂) h₃ in
      check_bodies_lem a b (lit 10) pos pos ha hb
      ∙ ap (λ d. ok (lt (lit 10) d && overlap pos pos)) nothing
      ∙ rw (laws.lt-lit 10 0 (omega arith) (omega arith))
