-- ===== src/Prelude/Results.antt =====
-- Exceptions of the C++ code as values.
use mathlib.Core.Path.{◌≡◌, refl, ◌∙◌}
use mathlib.Core.Logic.{◌⊎◌, inl, inr}

-- `undefined` stands for undefined behaviour: a read of an empty `std::optional` through `->`, or an
-- index outside a container.
pub data Exception : Type 0 where
  out_of_range runtime_error invalid_argument undefined : Exception

-- What a call comes to.
pub data Result {ℓ} (A : Type ℓ) : Type ℓ where
  thrown : Exception → Result A
  ok : A → Result A

module _ {ℓ} {A : Type ℓ} where
  pub Result-cases :
      (call : Result A) → ((e : Exception) × (call ≡ thrown e)) ⊎ ((a : A) × (call ≡ ok a))
  Result-cases (thrown e) = inl (e, refl)
  Result-cases (ok a) = inr (a, refl)

  pub ok-injective : {a b : A} → ok a ≡ ok b → a ≡ b
  ok-injective h = cc

module _ {ℓ κ} {A : Type ℓ} {B : Type κ} where
  -- The next call, unless this one threw.
  infixl 5 ◌>>=◌
  abbrev pub ◌>>=◌ : Result A → (A → Result B) → Result B
  thrown e >>= next = thrown e
  ok a >>= next = next a

  -- Where both calls return, the first one did.
  pub >>=-ok :
      (call : Result A) (next : A → Result B) {b : B}
      → (call >>= next) ≡ ok b
      → (a : A) × (call ≡ ok a) × (next a ≡ ok b)
  >>=-ok (thrown e) next returns = cc
  >>=-ok (ok a) next returns = (a, refl, returns)

  pub ok->>= :
      (call : Result A) (next : A → Result B) {a : A} → call ≡ ok a → (call >>= next) ≡ next a
  ok->>= call next returns = rw returns

-- The call returns, with a value that the predicate holds of.
abbrev pub Succeeds {ℓ κ} : {A : Type ℓ} → Result A → (A → Type κ) → Type (ℓ ⊔ κ)
Succeeds {A = A} call P = (a : A) × (call ≡ ok a) × P a

pub >>=-Succeeds {ℓ κ μ ν} :
    {A : Type ℓ} {B : Type κ} (P : A → Type μ) (Q : B → Type ν) (call : Result A)
    (next : A → Result B)
    → Succeeds call P
    → ((a : A) → P a → Succeeds (next a) Q)
    → Succeeds (call >>= next) Q
>>=-Succeeds P Q call next (a, returns, holds) rest =
    let (b, returns', holds') = rest a holds in (b, ok->>= call next returns ∙ returns', holds')
