-- ===== src/Game/Movement/Bounds.antt =====
-- The bounds of the screen in `clampPositionToBounds`.
use native.Mathlib.Omega.{arith}
use bee_r_type.Prelude.{ℕ, ◌≤◌, ◌^◌, ◌≡◌, ◌∙◌, inl, inr, true, false, ltb, Bool-cases}
use bee_r_type.Platform.{Platform, IsIeee}
use bee_r_type.Game.Movement.{clamp, clamp_position_to_bounds}

module _ ⦃p : Platform⦄ where
  open p use {Real, lit, lt, le}

  -- Between the bounds, by comparisons that no NaN passes.
  abbrev pub IsWithin : Real → Real → Real → Type 0
  IsWithin low high a = (le low a ≡ true) × (le a high ≡ true)

  -- The bounds are whole numbers in their order, and the value is not NaN.
  clamp-IsWithin :
      (laws : IsIeee p) (m n : ℕ) (a : Real)
      → m ≤ n
      → n ≤ 2 ^ 24
      → le a a ≡ true
      → IsWithin (lit m) (lit n) (clamp (lit m) (lit n) a)
  unfolding clamp
  clamp-IsWithin laws m n a h k number =
      let low = laws.le-lit m (omega (arith, h, k)) in
      let high = laws.le-lit n k in
      let apart : ltb n m ≡ false = ground arith in
      let order : le (lit m) (lit n) ≡ true =
        laws.le-number (lit n) (lit m) high low (laws.lt-lit n m k (omega (arith, h, k)) ∙ apart) in
      elim (Bool-cases (lt a (lit m))) [
        | inl under ↦ rw under (low, order)
        | inr above ↦ rw above (elim (Bool-cases (lt (lit n) a)) [
          | inl over ↦ rw over (order, high)
          | inr in_range ↦ rw in_range (
            laws.le-number a (lit m) number low above,
            laws.le-number (lit n) a high number in_range,
          )
        ])
      ]

  clamp_within : (laws : IsIeee p) (low high a : Real) → IsWithin low high a → clamp low high a ≡ a
  unfolding clamp
  clamp_within laws low high a (h, h') = rw (laws.le-lt low a h, laws.le-lt a high h')

  -- `clampPositionToBounds` gives a position on the screen, from 0 to 1195 and from 0 to 630, for every
  -- pair of coordinates of which none is NaN; it leaves one that is on the screen alone, so a second
  -- call changes nothing.
  pub clamp_position_bounds :
      (laws : IsIeee p) (x y : Real)
      → le x x ≡ true
      → le y y ≡ true
      → let q = clamp_position_to_bounds x y in
        IsWithin (lit 0) (lit 1195) q.x
        × IsWithin (lit 0) (lit 630) q.y
        × (IsWithin (lit 0) (lit 1195) x
            → IsWithin (lit 0) (lit 630) y
            → q ≡ record { x = x; y = y })
        × (clamp_position_to_bounds q.x q.y ≡ q)
  unfolding clamp_position_to_bounds
  clamp_position_bounds laws x y number_x number_y =
      let in_x = clamp-IsWithin laws 0 1195 x (omega arith) (omega arith) number_x in
      let in_y = clamp-IsWithin laws 0 630 y (omega arith) (omega arith) number_y in
      (
        in_x,
        in_y,
        λ hx hy. rw (clamp_within laws _ _ x hx, clamp_within laws _ _ y hy),
        rw (clamp_within laws _ _ _ in_x, clamp_within laws _ _ _ in_y),
      )
