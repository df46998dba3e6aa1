-- ===== src/Prelude/Decimal.antt =====
-- `std::to_string` on an integer that is not negative, and `std::stoi`. A text is its bytes.
pub mod RoundTrip
use bee_r_type.Prelude.Tests.{ltb, leb, ◌==◌, if◌then◌else◌}
use bee_r_type.Prelude.Lists.{codes}
use bee_r_type.Prelude.Results.{Result, ok, thrown, invalid_argument, out_of_range}
use bee_r_type.Prelude.Int.{ℤ, pos, negsuc, sub_ℕ}
use Prim.Native.Nat.{ℕ, zero, suc, ◌+◌, ◌-◌, ◌*◌, ◌/◌, ◌%◌, ◌^◌}
use mathlib.Core.Bool.{Bool, true, false, ◌&&◌, ◌||◌}
use mathlib.Core.List.{List, [], ◌∷◌}
use mathlib.Core.Path.{◌≡◌, refl}

abbrev pub Bytes : Type 0
Bytes = List ℕ

-- The digits of a number in front of a text. The fuel runs out for no number below it.
unfoldable pub digits : ℕ → ℕ → Bytes → Bytes
digits zero n out = out
digits (suc f) n out =
    let more = digits f (n / 10) ((b'0' + n % 10) ∷ out) in
    if ltb n 10 then (b'0' + n) ∷ out else more

unfoldable pub to_string : ℕ → Bytes
unfolding digits
to_string n = digits (suc n) n []

unfoldable pub to_string_ℤ : ℤ → Bytes
unfolding to_string
to_string_ℤ (pos n) = to_string n
to_string_ℤ (negsuc n) = b'-' ∷ to_string (suc n)

unfoldable pub is_digit : ℕ → Bool
is_digit c = leb b'0' c && leb c b'9'

-- `isspace` in the C locale.
unfoldable pub is_space : ℕ → Bool
is_space c = c == 32 || leb 9 c && leb c 13

-- The value of the digits at the front, after a value read so far.
unfoldable pub scan : Bytes → ℕ → ℕ
unfolding is_digit
scan [] a = a
scan (c ∷ s) a = if is_digit c then scan s (a * 10 + (c - b'0')) else a

-- The digits behind the sign: at least one, and a value that an `int` holds.
unfoldable pub read_digits : Bool → Bytes → Result ℤ
unfolding scan
read_digits negative [] = thrown invalid_argument
read_digits negative (c ∷ s) =
    let n = scan (c ∷ s) 0 in
    if is_digit c
    then (if negative
        then (if leb n (2 ^ 31) then ok (sub_ℕ 0 n) else thrown out_of_range)
        else (if ltb n (2 ^ 31) then ok (pos n) else thrown out_of_range))
    else thrown invalid_argument

unfoldable pub stoi : Bytes → Result ℤ
unfolding read_digits is_space
stoi [] = thrown invalid_argument
stoi (c ∷ s) =
    if is_space c
    then stoi s
    else (if c == b'-'
        then read_digits true s
        else (if c == b'+' then read_digits false s else read_digits false (c ∷ s)))

to_string_runs : to_string 1204 ≡ codes "1204"
unfolding to_string
to_string_runs = refl

stoi_runs : stoi (codes " -17;") ≡ ok (sub_ℕ 0 17)
unfolding stoi
stoi_runs = refl
