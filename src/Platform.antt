-- ===== src/Platform.antt =====
-- What the program takes from outside the repository, as one interface: `float` arithmetic and its
-- printing, the UDP endpoints of Boost.Asio and the shapes of SFML.
use mathlib.Core.Logic.{◌↔◌}
use bee_r_type.Prelude.{ℕ, ◌≤◌, ◌^◌, ltb, ◌≡◌, Bool, true, false, List, Result, All, ◌≢◌}
use bee_r_type.Prelude.Int.{ℤ}

pub record Platform : Type 1 where
  -- `float`: `lit n` is the whole number n and `tenth` is 0.1f; `square a` is `std::pow(a, 2)`.
  pub Real : Type 0
  pub lit : ℕ → Real
  pub tenth : Real
  pub neg : Real → Real
  pub add : Real → Real → Real
  pub sub : Real → Real → Real
  pub mul : Real → Real → Real
  pub lt : Real → Real → Bool
  pub le : Real → Real → Bool
  pub same_real : Real → Real → Bool
  pub square : Real → Real
  pub sqrt : Real → Real
  -- `std::to_string(float)` and `std::stof`.
  pub print_real : Real → List ℕ
  pub parse_real : List ℕ → Result Real
  -- `static_cast<int>` of a `float`.
  pub truncate : Real → ℤ
  -- `double`: `double n` is the whole number n.
  pub Double : Type 0
  pub double : ℤ → Double
  pub add_double : Double → Double → Double
  pub mul_double : Double → Double → Double
  pub div_double : Double → Double → Double
  pub lt_double : Double → Double → Bool
  pub truncate_double : Double → ℤ
  -- What `distY(rng)` gives when the generator has been used n times.
  pub draw_y : ℕ → Real
  -- `boost::asio::ip::udp::endpoint` with its `==`.
  pub Endpoint : Type 0
  pub same : Endpoint → Endpoint → Bool
  pub same_iff : (a b : Endpoint) → (same a b ≡ true) ↔ (a ≡ b)
  -- C++ leaves it undefined to lock a `std::mutex` that the thread owns, and to unlock one that it does
  -- not own. Whether the first waits or goes on, and whether the second leaves a locked mutex locked.
  pub relock_waits : Bool
  pub unlock_keeps : Bool
  -- `sf::RectangleShape`.
  pub Shape : Type 0

-- IEEE comparisons: of whole numbers that a `float` holds exactly, of a value with itself, and of two
-- values that are not NaN, which are those that are at most themselves.
pub record IsIeee (p : Platform) : Type 0 where
  pub lt-lit : (m n : ℕ) → m ≤ 2 ^ 24 → n ≤ 2 ^ 24 → p.lt (p.lit m) (p.lit n) ≡ ltb m n
  pub lt-irrefl : (a : p.Real) → p.lt a a ≡ false
  pub le-lit : (n : ℕ) → n ≤ 2 ^ 24 → p.le (p.lit n) (p.lit n) ≡ true
  pub le-lt : (a b : p.Real) → p.le a b ≡ true → p.lt b a ≡ false
  pub le-number :
      (a b : p.Real) → p.le a a ≡ true → p.le b b ≡ true → p.lt a b ≡ false → p.le b a ≡ true

-- What `std::to_string(float)` prints holds no `;`.
pub record IsPrinting (p : Platform) : Type 0 where
  pub print-plain : (a : p.Real) → All (λ c. c ≢ b';') (p.print_real a)
