-- ===== src/Prelude/Map/Laws.antt =====
-- What the operations on maps do to a search, and to the keys.
use mathlib.Core.List.{Nodup, Nodup-cons, Mem, mem-cons, Mem-prop}
use mathlib.Core.Logic.Or
use bee_r_type.Prelude.Tests.{ltb, ◌==◌, if◌then◌else◌, Bool-cases, Option-cases, ==_iff}
use bee_r_type.Prelude.Map.{Map, find, place, adjust, assign, erase, keys}
use Prim.Native.Nat.{ℕ}
use mathlib.Core.Path.{◌≡◌, refl, sym, ◌∙◌, ap}
use mathlib.Core.Logic.{inl, inr}
use mathlib.Core.Bool.{true, false}
use mathlib.Core.Option
use mathlib.Core.Option.{Option, none, some}
use mathlib.Core.List.{[], ◌∷◌}
use native.Mathlib.Omega.{arith}

some-none {ℓ} : {A : Type ℓ} {a : A} → some a ≡ none → ⊥
some-none e = cc

other : (k i j : ℕ) → (i == k) ≡ false → (i == j) ≡ true → (k == j) ≡ false
other k i j h q = ground arith

both : (k i j : ℕ) → (i == k) ≡ true → (k == j) ≡ (i == j)
both k i j h = ground arith

module _ {ℓ} {V : Type ℓ} where
  pub find-place :
      (j k : ℕ) (v : V) (m : Map V)
      → find k m ≡ none
      → find j (place k v m) ≡ (if k == j then some v else find j m)
  unfolding find place
  find-place j k v [] h = refl
  find-place j k v ((i, w) ∷ m) h = elim (Bool-cases (i == k)) [
    | inl here ↦ absurd (some-none (rw here at h))
    | inr there ↦
        let rest = find-place j k v m (rw there at h) in
        elim (Bool-cases (ltb k i)) [
          | inl before ↦ rw before
          | inr behind ↦
              rw (behind, rest)
                (elim (Bool-cases (i == j)) [ inl q ↦ rw (q, other k i j there q) | inr q ↦ rw q ])
        ]
  ]

  pub find-adjust :
      (j k : ℕ) (f : V → V) (m : Map V)
      → find j (adjust k f m) ≡ (if k == j then Option.map f (find j m) else find j m)
  unfolding find adjust
  find-adjust j k f [] = elim (Bool-cases (k == j)) [ inl q ↦ rw q | inr q ↦ rw q ]
  find-adjust j k f ((i, w) ∷ m) = elim (Bool-cases (i == k)) [
    | inl here ↦
        rw (here, both k i j here) (elim (Bool-cases (i == j)) [ inl q ↦ rw q | inr q ↦ rw q ])
    | inr there ↦ rw there (elim (Bool-cases (i == j)) [
      | inl q ↦ rw (q, other k i j there q)
      | inr q ↦ rw q (find-adjust j k f m)
    ])
  ]

  -- `m[k] = v` and a search.
  pub find-assign :
      (j k : ℕ) (v : V) (m : Map V) → find j (assign k v m) ≡ (if k == j then some v else find j m)
  unfolding assign
  find-assign j k v m = elim (Option-cases (find k m)) [
    | inl q ↦ rw (q, assign) (find-place j k v m q)
    | inr (w, q) ↦
        rw (q, assign)
          (find-adjust j k (λ _. v) m
            ∙ elim (Bool-cases (k == j)) [ inl e ↦ rw (e, ← (==_iff k j).0 e, q) | inr e ↦ rw e ])
  ]

  pub find-missing : (k : ℕ) (m : Map V) → ¬ Mem k (keys m) → find k m ≡ none
  unfolding find
  find-missing k [] h = refl
  find-missing k ((j, w) ∷ m) h = elim (Bool-cases (j == k)) [
    | inl here ↦ absurd (h (mem-cons.1 (Or.inl (sym ((==_iff j k).0 here)))))
    | inr there ↦ rw there (find-missing k m (λ q. h (mem-cons.1 (Or.inr q))))
  ]

  -- Where no key stands twice, a removal takes its key away and nothing else.
  pub find-erase :
      (j k : ℕ) (m : Map V)
      → Nodup (keys m)
      → find j (erase k m) ≡ (if k == j then none else find j m)
  unfolding find erase
  find-erase j k [] d = elim (Bool-cases (k == j)) [ inl q ↦ rw q | inr q ↦ rw q ]
  find-erase j k ((i, w) ∷ m) d = elim (Bool-cases (i == k)) [
    | inl here ↦
        rw (here, both k i j here)
          (elim (Bool-cases (i == j)) [
            | inl q ↦ rw (q, ← (==_iff i j).0 q) (find-missing i m (Nodup-cons.0 d).0)
            | inr q ↦ rw q
          ])
    | inr there ↦ rw there (elim (Bool-cases (i == j)) [
      | inl q ↦ rw (q, other k i j there q)
      | inr q ↦ rw q (find-erase j k m (Nodup-cons.0 d).1)
    ])
  ]

  mem-erase : (a k : ℕ) (m : Map V) → Mem a (keys (erase k m)) → Mem a (keys m)
  unfolding erase
  mem-erase a k [] h = h
  mem-erase a k ((i, w) ∷ m) h = elim (Bool-cases (i == k)) [
    | inl here ↦ mem-cons.1 (Or.inr (rw here at h))
    | inr there ↦
        let h' : Mem a (i ∷ keys (erase k m)) = rw there at h in
        Or.elim Mem-prop (mem-cons.0 h') (λ q. mem-cons.1 (Or.inl q))
          (λ q. mem-cons.1 (Or.inr (mem-erase a k m q)))
  ]

  pub erase-Nodup : (k : ℕ) (m : Map V) → Nodup (keys m) → Nodup (keys (erase k m))
  unfolding erase
  erase-Nodup k [] d = d
  erase-Nodup k ((i, w) ∷ m) d = elim (Bool-cases (i == k)) [
    | inl here ↦ rw here (Nodup-cons.0 d).1
    | inr there ↦ rw there (
        Nodup-cons.1
          ((λ h. (Nodup-cons.0 d).0 (mem-erase i k m h)), erase-Nodup k m (Nodup-cons.0 d).1))
  ]

  pub keys-adjust : (k : ℕ) (f : V → V) (m : Map V) → keys (adjust k f m) ≡ keys m
  unfolding adjust
  keys-adjust k f [] = refl
  keys-adjust k f ((i, w) ∷ m) = elim (Bool-cases (i == k)) [
    | inl here ↦ rw here
    | inr there ↦ rw there (ap (λ l. i ∷ l) (keys-adjust k f m))
  ]
