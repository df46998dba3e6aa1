-- ===== src/Network/Segments.antt =====
-- The text of a packet: segments with `;` between them.
use bee_r_type.Prelude.{ℕ, ◌≢◌, List, [], ◌∷◌, ◌++◌, All, arith}
use bee_r_type.Prelude.Decimal.{Bytes, to_string}
use bee_r_type.Prelude.Decimal.RoundTrip.{to_string-IsDigit, IsDigit}

-- A text without `;`.
abbrev pub IsPlain : Bytes → Type 0
IsPlain = All (λ c. c ≢ b';')

-- Segments with a `;` behind each, and a last one.
abbrev pub join : List Bytes → Bytes → Bytes
join [] last = last
join (s ∷ ss) last = s ++ (b';' ∷ join ss last)

IsPlain-digits : (s : Bytes) → All IsDigit s → IsPlain s
IsPlain-digits [] h = tt
IsPlain-digits (c ∷ s) h = ((λ e. omega arith), IsPlain-digits s h.1)

pub to_string-IsPlain : (n : ℕ) → IsPlain (to_string n)
to_string-IsPlain n = IsPlain-digits (to_string n) (to_string-IsDigit n)
