-- ===== src/Prelude/Decimal/RoundTrip.antt =====
-- `std::stoi` reads what `std::to_string` writes.
use bee_r_type.Prelude.Tests.{ltb, Bool-cases}
use bee_r_type.Prelude.Lists.{All}
use bee_r_type.Prelude.Results.{ok}
use bee_r_type.Prelude.Int.{pos}
use bee_r_type.Prelude.Decimal.{
  Bytes, digits, to_string, is_digit, is_space, scan, read_digits, stoi,
}
use Prim.Native.Nat.{ℕ, zero, suc, ◌+◌, ◌/◌, ◌%◌, ◌^◌, ◌<◌, ◌≤◌}
use mathlib.Core.List.{[], ◌∷◌}
use mathlib.Core.Logic.{inl, inr}
use mathlib.Core.Path.{◌≡◌}
use native.Mathlib.Omega.{arith}

scan-digits : (f n : ℕ) (out : Bytes) → n < f → scan (digits f n out) 0 ≡ scan out n
unfolding digits scan
scan-digits zero n out h = absurd (omega arith)
scan-digits (suc f) n out h = ground (arith, scan-digits f (n / 10) ((b'0' + n % 10) ∷ out))

-- The written text begins with a digit, and its digits are in front of `out`.
digits-first :
    (f n : ℕ) (out : Bytes)
    → n < f
    → (c : ℕ) × (s : Bytes) × (digits f n out ≡ c ∷ s) × (b'0' ≤ c) × (c ≤ b'9')
unfolding digits
digits-first zero n out h = absurd (omega arith)
digits-first (suc f) n out h = elim (Bool-cases (ltb n 10)) [
  | inl small ↦ (b'0' + n, out, rw small, omega arith, ground arith)
  | inr big ↦ rw big (digits-first f (n / 10) ((b'0' + n % 10) ∷ out) (ground arith))
]

abbrev pub IsDigit : ℕ → Type 0
IsDigit c = (b'0' ≤ c) × (c ≤ b'9')

digits-IsDigit : (f n : ℕ) (out : Bytes) → All IsDigit out → All IsDigit (digits f n out)
unfolding digits
digits-IsDigit zero n out h = h
digits-IsDigit (suc f) n out h = elim (Bool-cases (ltb n 10)) [
  | inl small ↦ rw small ((omega arith, ground arith), h)
  | inr big ↦
      rw big (digits-IsDigit f (n / 10) ((b'0' + n % 10) ∷ out) ((omega arith, omega arith), h))
]

-- Only digits are written.
pub to_string-IsDigit : (n : ℕ) → All IsDigit (to_string n)
unfolding to_string
to_string-IsDigit n = digits-IsDigit (suc n) n [] tt

-- For every number that an `int` holds.
pub stoi-to_string : (n : ℕ) → n < 2 ^ 31 → stoi (to_string n) ≡ ok (pos n)
unfolding to_string stoi is_space read_digits is_digit scan
stoi-to_string n h =
    let (c, s, e, low, high) = digits-first (suc n) n [] (omega arith) in
    let value = scan-digits (suc n) n [] (omega arith) in ground arith

-- At least one digit is written.
pub to_string-cons : (n : ℕ) → (c : ℕ) × (s : Bytes) × (to_string n ≡ c ∷ s)
unfolding to_string
to_string-cons n = let (c, s, e, _, _) = digits-first (suc n) n [] (omega arith) in (c, s, e)
