-- ===== src/Programs/Ports.antt =====
-- The ports that the programs use for their arguments.
use mathlib.Core.Path.{ap₂}
use bee_r_type.Prelude.{
  ℕ, suc, ◌+◌, ◌-◌, ◌%◌, ◌^◌, ◌<◌, ◌≡◌, refl, ap, ◌∙◌, ltb, if◌then◌else◌, [], ◌∷◌, arith,
  Bool-cases, inl, inr,
}
use bee_r_type.Prelude.Int.{ℤ, pos, negsuc}
use bee_r_type.Prelude.Decimal.{Bytes, to_string, to_string_ℤ}
use bee_r_type.Prelude.Decimal.RoundTrip.{stoi-to_string}
use bee_r_type.Programs.{
  to_short, to_unsigned_short, parse_port, Call, returns, throws, client_main, starts,
}

-- The port of the endpoint that the server makes from the result of `parsePort`.
abbrev pub listens : Call ℤ → Call ℕ
listens (returns port) = returns (to_unsigned_short port)
listens (throws e) = throws e

short_round : (n : ℕ) → to_unsigned_short (to_short (pos n)) ≡ n % 2 ^ 16
short_round n = ground arith

short_port : (n : ℕ) → n < 2 ^ 16 → to_unsigned_short (to_short (pos n)) ≡ n
short_port n h = ground arith

short_value :
    (n : ℕ)
    → n < 2 ^ 16
    → to_short (pos n) ≡ (if ltb n (2 ^ 15) then pos n else negsuc (2 ^ 16 - 1 - n))
short_value n h = ground arith

negated : (n : ℕ) → to_string_ℤ (negsuc n) ≡ b'-' ∷ to_string (n + 1)
unfolding to_string_ℤ
negated n = let e : suc n ≡ n + 1 = omega arith in ap (λ k. b'-' ∷ to_string k) e

not_negated : (n : ℕ) → to_string_ℤ (pos n) ≡ to_string n
unfolding to_string_ℤ
not_negated n = refl

short_text :
    (n : ℕ)
    → n < 2 ^ 16
    → to_string_ℤ (to_short (pos n))
      ≡ (if ltb n (2 ^ 15) then to_string n else b'-' ∷ to_string (2 ^ 16 - n))
short_text n h = ap to_string_ℤ (short_value n h) ∙ elim (Bool-cases (ltb n (2 ^ 15))) [
  | inl q ↦ rw q (not_negated n)
  | inr q ↦ rw q (negated (2 ^ 16 - 1 - n) ∙ ap (λ k. b'-' ∷ to_string k) (omega (arith, h)))
]

-- The server listens on the port that its argument names, for every port there is, although the port
-- goes through a signed 16-bit number; a number above 65535 is not refused, and its rest modulo 65536 is
-- taken.
pub parse_port-to_string :
    (name : Bytes) (n : ℕ)
    → n < 2 ^ 31
    → listens (parse_port (name ∷ to_string n ∷ [])) ≡ returns (n % 2 ^ 16)
unfolding parse_port
parse_port-to_string name n h = rw (stoi-to_string n h) (ap returns (short_round n))

-- The client asks the resolver for the server's port as the signed 16-bit number: for a port above
-- 32767 the text is that of a negative number.
client_main-to_string :
    (name host : Bytes) (s c : ℕ)
    → s < 2 ^ 16
    → c < 2 ^ 16
    → client_main (name ∷ host ∷ to_string s ∷ to_string c ∷ [])
      ≡ starts (record {
        host = host;
        service = if ltb s (2 ^ 15) then to_string s else b'-' ∷ to_string (2 ^ 16 - s);
        client_port = c;
      })
unfolding client_main
client_main-to_string name host s c hs hc =
    rw (stoi-to_string s (omega (arith, hs)), stoi-to_string c (omega (arith, hc)))
      (ap₂ (λ t u. starts (record { host = host; service = t; client_port = u })) (short_text s hs)
        (short_port c hc))
