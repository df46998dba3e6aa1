-- ===== src/Prelude/Map/Entries.antt =====
-- What holds of all entries of a map, through the operations on maps.
use bee_r_type.Prelude.Tests.{ltb, ◌==◌, Bool-cases, Option-cases}
use bee_r_type.Prelude.Lists.{All}
use bee_r_type.Prelude.Map.{Map, find, place, emplace, adjust, assign, erase}
use Prim.Native.Nat.{ℕ}
use mathlib.Core.Path.{◌≡◌, subst}
use mathlib.Core.Logic.{inl, inr}
use mathlib.Core.Option.{none, some}
use mathlib.Core.List.{[], ◌∷◌}

module _ {ℓ} {V : Type ℓ} where
  pub place-All {κ} :
      (P : ℕ × V → Type κ) (k : ℕ) (v : V) (m : Map V) → P (k, v) → All P m → All P (place k v m)
  unfolding place
  place-All P k v [] q h = (q, tt)
  place-All P k v ((j, w) ∷ m) q h = elim (Bool-cases (ltb k j)) [
    | inl before ↦ rw before (q, h)
    | inr behind ↦ rw behind (h.0, place-All P k v m q h.1)
  ]

  pub erase-All {κ} : (P : ℕ × V → Type κ) (k : ℕ) (m : Map V) → All P m → All P (erase k m)
  unfolding erase
  erase-All P k [] h = h
  erase-All P k ((j, w) ∷ m) h = elim (Bool-cases (j == k)) [
    | inl here ↦ rw here h.1
    | inr there ↦ rw there (h.0, erase-All P k m h.1)
  ]

  pub emplace-All {κ} :
      (P : ℕ × V → Type κ) (k : ℕ) (v : V) (m : Map V) → P (k, v) → All P m → All P (emplace k v m)
  unfolding emplace
  emplace-All P k v m q h = elim (Option-cases (find k m)) [
    | inl e ↦ rw (e, emplace) (place-All P k v m q h)
    | inr (w, e) ↦ rw (e, emplace) h
  ]

  pub adjust-All {κ} :
      (P : V → Type κ) (k : ℕ) (f : V → V) (m : Map V)
      → ((v : V) → P v → P (f v))
      → All (λ x. P x.1) m
      → All (λ x. P x.1) (adjust k f m)
  unfolding adjust
  adjust-All P k f [] q h = tt
  adjust-All P k f ((j, w) ∷ m) q h = elim (Bool-cases (j == k)) [
    | inl here ↦ rw here (q w h.0, h.1)
    | inr there ↦ rw there (h.0, adjust-All P k f m q h.1)
  ]

  pub assign-All {κ} :
      (P : V → Type κ) (k : ℕ) (v : V) (m : Map V)
      → P v
      → All (λ x. P x.1) m
      → All (λ x. P x.1) (assign k v m)
  unfolding assign
  assign-All P k v m q h = elim (Option-cases (find k m)) [
    | inl e ↦ rw (e, assign) (place-All (λ x. P x.1) k v m q h)
    | inr (w, e) ↦ rw (e, assign) (adjust-All P k (λ _. v) m (λ _ _. q) h)
  ]

  pub find-All {κ} :
      (P : V → Type κ) (k : ℕ) (m : Map V) {v : V} → All (λ x. P x.1) m → find k m ≡ some v → P v
  unfolding find
  find-All P k [] h e = absurd (none_some e)
    where
      none_some : {v : V} → none ≡ some v → ⊥
      none_some e = cc
  find-All P k ((j, w) ∷ m) h e = elim (Bool-cases (j == k)) [
    | inl here ↦ subst P (some_inj (rw here at e)) h.0
    | inr there ↦ find-All P k m h.1 (rw there at e)
  ]
    where
      some_inj : {a b : V} → some a ≡ some b → a ≡ b
      some_inj e = cc
