-- ===== src/Sample.antt =====
-- A concrete platform, on which the tests run: fixed-point numbers with one decimal, and endpoints that
-- are numbers. `parse_real` reads whole numbers only.
use bee_r_type.Prelude.{
  ℕ, zero, suc, ◌+◌, ◌*◌, ◌/◌, ◌%◌, ◌≡◌, ◌≢◌, refl, ap, true, false, not, ◌&&◌, List, [], ◌∷◌, Bool,
  ◌++◌, leb, ◌==◌, ==_iff, if◌then◌else◌, ok, ◌>>=◌, arith, All-append,
}
use bee_r_type.Prelude.Int.{ℤ, pos, negsuc, sub_ℕ, ◌+ℤ◌, ◌-ℤ◌, ltb_ℤ, pos_part, neg_part}
use bee_r_type.Prelude.Decimal.{to_string, stoi}
use bee_r_type.Platform.{Platform, IsIeee, IsPrinting}
use bee_r_type.Network.Segments.{IsPlain, to_string-IsPlain}
use bee_r_type.Client.Sprites.{Graphics, SpriteType, background_type}

abbrev size_of : ℤ → ℕ
size_of a = pos_part a + neg_part a

-- The product of two numbers of tenths, rounded toward 0.
abbrev times : ℤ → ℤ → ℤ
times (pos a) (pos b) = pos (a * b / 10)
times (pos a) (negsuc b) = sub_ℕ 0 (a * (b + 1) / 10)
times (negsuc a) (pos b) = sub_ℕ 0 ((a + 1) * b / 10)
times (negsuc a) (negsuc b) = pos ((a + 1) * (b + 1) / 10)

-- The least root, from `r` on, whose square is not below `n`.
abbrev root_from : ℕ → ℕ → ℕ → ℕ
root_from zero r n = r
root_from (suc f) r n = let rest = root_from f (r + 1) n in if leb n (r * r) then r else rest

abbrev digits_of : ℤ → List ℕ
digits_of (pos n) = to_string (n / 10) ++ (b'.' ∷ to_string (n % 10))
digits_of (negsuc n) = b'-' ∷ (to_string ((n + 1) / 10) ++ (b'.' ∷ to_string ((n + 1) % 10)))

abbrev whole_part : ℤ → ℤ
whole_part (pos n) = pos (n / 10)
whole_part (negsuc n) = sub_ℕ 0 ((n + 1) / 10)

-- The quotient of two numbers of tenths, rounded toward 0; the divisor is never negative here.
abbrev quotient : ℤ → ℤ → ℤ
quotient (pos a) b = pos (10 * a / size_of b)
quotient (negsuc a) b = sub_ℕ 0 (10 * (a + 1) / size_of b)

instance abbrev pub fixed : Platform
fixed = record {
  Real = ℤ;
  lit = λ n. pos (10 * n);
  tenth = pos 1;
  neg = λ a. pos 0 -ℤ a;
  add = λ a b. a +ℤ b;
  sub = λ a b. a -ℤ b;
  mul = times;
  lt = ltb_ℤ;
  le = λ a b. not (ltb_ℤ b a);
  same_real = λ a b. not (ltb_ℤ a b) && not (ltb_ℤ b a);
  square = λ a. pos (size_of a * size_of a / 10);
  sqrt = λ a. pos (root_from (size_of a + 1) 0 (10 * size_of a));
  print_real = digits_of;
  parse_real = λ s. stoi s >>= λ n. ok (times n (pos 100));
  truncate = whole_part;
  Double = ℤ;
  double = λ n. times n (pos 100);
  add_double = λ a b. a +ℤ b;
  mul_double = times;
  div_double = quotient;
  lt_double = ltb_ℤ;
  truncate_double = whole_part;
  draw_y = λ n. pos (10 * (n % 600));
  Endpoint = ℕ;
  same = ◌==◌;
  same_iff = ==_iff;
  relock_waits = true;
  unlock_keeps = false;
  Shape = Unit;
}

lt-irrefl_ℤ : (a : ℤ) → ltb_ℤ a a ≡ false
lt-irrefl_ℤ a = ground arith

not-true : (b : Bool) → not b ≡ true → b ≡ false
not-true true h = cc
not-true false h = refl

pub fixed-IsIeee : IsIeee fixed
fixed-IsIeee = record {
  lt-lit = λ m n _ _. ground arith;
  lt-irrefl = lt-irrefl_ℤ;
  le-lit = λ n _. ap not (lt-irrefl_ℤ (pos (10 * n)));
  le-lt = λ a b. not-true (ltb_ℤ b a);
  le-number = λ a b _ _ h. ap not h;
}

pointed-IsPlain : (a b : ℕ) → IsPlain (to_string a ++ (b'.' ∷ to_string b))
pointed-IsPlain a b =
    All-append (λ c. c ≢ b';') (to_string a) (b'.' ∷ to_string b) (to_string-IsPlain a)
      ((λ e. cc), to_string-IsPlain b)

pos-IsPlain : (n : ℕ) → IsPlain (digits_of (pos n))
pos-IsPlain n = pointed-IsPlain (n / 10) (n % 10)

negsuc-IsPlain : (n : ℕ) → IsPlain (digits_of (negsuc n))
negsuc-IsPlain n = ((λ e. cc), pointed-IsPlain ((n + 1) / 10) ((n + 1) % 10))

digits_of-IsPlain : (a : ℤ) → IsPlain (digits_of a)
digits_of-IsPlain (pos n) = pos-IsPlain n
digits_of-IsPlain (negsuc n) = negsuc-IsPlain n

pub fixed-IsPrinting : IsPrinting fixed
fixed-IsPrinting = record { print-plain = digits_of-IsPlain }

abbrev pub close_to : ℤ → ℤ → Bool
close_to a b = leb (size_of (a -ℤ b)) 1000

-- Sprites that are a texture and a place, and texts that are their strings. A sprite contains the
-- places that are less than 100 away in both directions.
instance abbrev pub flat : Graphics fixed
flat = record {
  Sprite = SpriteType × ℤ × ℤ;
  blank = (background_type, pos 0, pos 0);
  set_texture = λ type s. (type, s.1, s.2);
  set_position = λ x y s. (s.0, x, y);
  move = λ x y s. (s.0, s.1 +ℤ x, s.2 +ℤ y);
  Mouse = ℤ × ℤ;
  contains = λ s m. close_to s.1 m.0 && close_to s.2 m.1;
  Text = List ℕ;
  blank_text = [];
  set_character_size = λ n t. t;
  set_fill_color = λ c t. t;
  set_text_position = λ x y t. t;
  set_string = λ s t. s;
}
