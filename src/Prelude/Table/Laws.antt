-- ===== src/Prelude/Table/Laws.antt =====
-- What the operations on tables do to a search.
use bee_r_type.Prelude.Tests.{if◌then◌else◌, Bool-cases}
use bee_r_type.Prelude.Int.{ℤ}
use bee_r_type.Prelude.Table.{Table, same_ℤ, find, erase, assign, at, change_all, is_some, has}
use mathlib.Core.Path.{◌≡◌, refl, sym, ap, subst, ◌∙◌}
use mathlib.Core.Logic.{◌↔◌, inl, inr}
use mathlib.Core.Bool.{true, false}
use mathlib.Core.Option
use mathlib.Core.Option.{Option, none, some}
use mathlib.Core.List.{[], ◌∷◌}
use native.Mathlib.Omega.{arith}

pub same_iff : (a b : ℤ) → (same_ℤ a b ≡ true) ↔ (a ≡ b)
same_iff a b = ground arith

other : (k i j : ℤ) → same_ℤ i k ≡ false → same_ℤ i j ≡ true → same_ℤ k j ≡ false
other k i j h q = ground arith

both : (k i j : ℤ) → same_ℤ i k ≡ true → same_ℤ k j ≡ same_ℤ i j
both k i j h = rw ((same_iff i k).0 h) refl

module _ {ℓ} {V : Type ℓ} where
  pub find-erase :
      (j k : ℤ) (t : Table V) → find j (erase k t) ≡ (if same_ℤ k j then none else find j t)
  unfolding find erase
  find-erase j k [] = elim (Bool-cases (same_ℤ k j)) [ inl q ↦ rw q | inr q ↦ rw q ]
  find-erase j k ((i, w) ∷ t) = elim (Bool-cases (same_ℤ i k)) [
    | inl here ↦ rw here (
        find-erase j k t
        ∙ rw (both k i j here) (elim (Bool-cases (same_ℤ i j)) [ inl q ↦ rw q | inr q ↦ rw q ]))
    | inr there ↦ rw there (elim (Bool-cases (same_ℤ i j)) [
      | inl q ↦ rw (q, other k i j there q)
      | inr q ↦ rw q (find-erase j k t)
    ])
  ]

  pub find-assign :
      (j k : ℤ) (v : V) (t : Table V)
      → find j (assign k v t) ≡ (if same_ℤ k j then some v else find j t)
  unfolding find assign
  find-assign j k v t = elim (Bool-cases (same_ℤ k j)) [
    | inl q ↦ rw q
    | inr q ↦ rw q (find-erase j k t ∙ rw q refl)
  ]

  pub find-change_all :
      (j : ℤ) (f : V → V) (t : Table V) → find j (change_all f t) ≡ Option.map f (find j t)
  unfolding find change_all
  find-change_all j f [] = refl
  find-change_all j f ((i, w) ∷ t) = elim (Bool-cases (same_ℤ i j)) [
    | inl q ↦ rw q
    | inr q ↦ rw q (find-change_all j f t)
  ]

  pub at_present :
      (missing : V) (k : ℤ) (t : Table V) {v : V} → find k t ≡ some v → at missing k t ≡ (t, v)
  unfolding at
  at_present missing k t h = rw (h, at)

  pub at_missing :
      (missing : V) (k : ℤ) (t : Table V)
      → find k t ≡ none
      → at missing k t ≡ (assign k missing t, missing)
  unfolding at
  at_missing missing k t h = rw (h, at)

  pub has-erase :
      (j k : ℤ) (t : Table V) → has j (erase k t) ≡ (if same_ℤ k j then false else has j t)
  unfolding has
  has-erase j k t =
      ap is_some (find-erase j k t) ∙ elim (Bool-cases (same_ℤ k j)) [ inl q ↦ rw q | inr q ↦ rw q ]

  pub has-assign :
      (j k : ℤ) (v : V) (t : Table V)
      → has j (assign k v t) ≡ (if same_ℤ k j then true else has j t)
  unfolding has
  has-assign j k v t =
      ap is_some (find-assign j k v t)
      ∙ elim (Bool-cases (same_ℤ k j)) [ inl q ↦ rw q | inr q ↦ rw q ]

  is_some-map : (f : V → V) (o : Option V) → is_some (Option.map f o) ≡ is_some o
  is_some-map f none = refl
  is_some-map f (some v) = refl

  pub has-change_all : (j : ℤ) (f : V → V) (t : Table V) → has j (change_all f t) ≡ has j t
  unfolding has
  has-change_all j f t = ap is_some (find-change_all j f t) ∙ is_some-map f (find j t)

  -- Putting in a new value under a key that is there.
  pub has-assign_present :
      (j k : ℤ) (v : V) (t : Table V) {w : V} → find k t ≡ some w → has j (assign k v t) ≡ has j t
  unfolding has
  has-assign_present j k v t {w = w} h = has-assign j k v t ∙ elim (Bool-cases (same_ℤ k j)) [
    | inl q ↦ rw q (sym (ap is_some (subst (λ i. find i t ≡ some w) ((same_iff k j).0 q) h)))
    | inr q ↦ rw q
  ]
