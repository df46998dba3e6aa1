-- ===== src/Server/Search.antt =====
-- Searches in the list of clients, and what insertions and removals do to them.
use mathlib.Core.List.{Perm, Nodup, Mem, Mem-prop, Nodup-cons, Nodup-nil, mem-cons, not-mem-nil}
use mathlib.Core.List.Perm
use mathlib.Core.Logic.Or
use mathlib.Core.Bool.{false≢true}
use native.Mathlib.Bridge.{le_prop}
use bee_r_type.Prelude.{
  ℕ, zero, suc, ◌<◌, ◌≡◌, refl, sym, subst, ◌∙◌, ◌≢◌, inl, inr, false, Option, none, some, List, [],
  ◌∷◌, ◌==◌, if◌then◌else◌, ltb, arith, All, ==_iff, Bool-cases,
}
use bee_r_type.Prelude.Map.{Map, keys, place, erase}
use bee_r_type.Prelude.Map.Entries.{place-All, erase-All}
use bee_r_type.Platform.{Platform}
use bee_r_type.Server.{ClientRegister, find_client}

-- The numbers below a bound, the greatest first.
abbrev pub below : ℕ → List ℕ
below zero = []
below (suc n) = n ∷ below n

pub lt_of_mem-below : (n k : ℕ) → Mem k (below n) → k < n
lt_of_mem-below zero k h = absurd (not-mem-nil h)
lt_of_mem-below (suc n) k h =
    Or.elim le_prop (mem-cons.0 h) (λ e. omega arith) (λ m. omega (arith, lt_of_mem-below n k m))

pub below-Nodup : (n : ℕ) → Nodup (below n)
below-Nodup zero = Nodup-nil
below-Nodup (suc n) =
    Nodup-cons.1 ((λ m. absurd (omega (arith, lt_of_mem-below n n m))), below-Nodup n)

pub ne_of_test : (j k : ℕ) → (j == k) ≡ false → j ≢ k
ne_of_test j k h e = false≢true (sym h ∙ (==_iff j k).1 e)

pub test_of_ne : (j k : ℕ) → j ≢ k → (j == k) ≡ false
test_of_ne j k ne = elim (Bool-cases (j == k)) [
  | inl q ↦ absurd (ne ((==_iff j k).0 q))
  | inr q ↦ q
]

module _ {ℓ} {V : Type ℓ} where
  pub keys-place : (k : ℕ) (v : V) (m : Map V) → Perm (keys (place k v m)) (k ∷ keys m)
  unfolding place
  keys-place k v [] = Perm.refl _
  keys-place k v ((j, w) ∷ m) = elim (Bool-cases (ltb k j)) [
    | inl before ↦ rw before (Perm.refl _)
    | inr behind ↦ rw behind (Perm.trans (Perm.cons j (keys-place k v m)) (Perm.swap k j _))
  ]

  pub keys-erase : (k : ℕ) (m : Map V) → Mem k (keys m) → Perm (keys m) (k ∷ keys (erase k m))
  unfolding erase
  keys-erase k [] h = absurd (not-mem-nil h)
  keys-erase k ((j, w) ∷ m) h = elim (Bool-cases (j == k)) [
    | inl here ↦ rw here (Perm.cons' ((==_iff j k).0 here) (Perm.refl _))
    | inr there ↦ rw there (
        Perm.trans
          (Perm.cons j (
            keys-erase k m (
              Or.elim Mem-prop (mem-cons.0 h) (λ q. absurd (ne_of_test j k there (sym q)))
                (λ q. q))))
          (Perm.swap k j _))
  ]

module _ ⦃p : Platform⦄ where
  open p use {Endpoint, same, same_iff}

  pub same-ne : (a b : Endpoint) → a ≢ b → same a b ≡ false
  same-ne a b ne = elim (Bool-cases (same a b)) [
    | inl q ↦ absurd (ne ((same_iff a b).0 q))
    | inr q ↦ q
  ]

  -- No entry has the endpoint.
  abbrev pub Apart : Endpoint → Map ClientRegister → Type 0
  Apart e = All (λ x. x.1.endpoint ≢ e)

  abbrev pub Separate : Map ClientRegister → Type 0
  Separate [] = Unit
  Separate ((id, c) ∷ cs) = Apart c.endpoint cs × Separate cs

  pub find_client-none :
      (e : Endpoint) (cs : Map ClientRegister) → find_client e cs ≡ none → Apart e cs
  unfolding find_client
  find_client-none e [] h = tt
  find_client-none e ((id, c) ∷ cs) h = elim (Bool-cases (same c.endpoint e)) [
    | inl q ↦ absurd (cc (rw q at h))
    | inr q ↦
        ((λ z. false≢true (sym q ∙ (same_iff c.endpoint e).1 z)), find_client-none e cs (rw q at h))
  ]

  pub find_client-Apart :
      (e : Endpoint) (cs : Map ClientRegister) → Apart e cs → find_client e cs ≡ none
  unfolding find_client
  find_client-Apart e [] h = refl
  find_client-Apart e ((id, c) ∷ cs) h = rw (same-ne c.endpoint e h.0) (find_client-Apart e cs h.1)

  pub place-Separate :
      (k : ℕ) (c : ClientRegister) (m : Map ClientRegister)
      → Apart c.endpoint m
      → Separate m
      → Separate (place k c m)
  unfolding place
  place-Separate k c [] a h = (tt, tt)
  place-Separate k c ((j, w) ∷ m) a h = elim (Bool-cases (ltb k j)) [
    | inl before ↦ rw before (a, h)
    | inr behind ↦ rw behind (
      place-All (λ x. x.1.endpoint ≢ w.endpoint) k c m (λ q. a.0 (sym q)) h.0,
      place-Separate k c m a.1 h.1,
    )
  ]

  pub erase-Separate : (k : ℕ) (m : Map ClientRegister) → Separate m → Separate (erase k m)
  unfolding erase
  erase-Separate k [] h = h
  erase-Separate k ((j, w) ∷ m) h = elim (Bool-cases (j == k)) [
    | inl here ↦ rw here h.1
    | inr there ↦ rw there (erase-All _ k m h.0, erase-Separate k m h.1)
  ]

  -- A search after a new entry.
  pub find_client-place :
      (e : Endpoint) (k : ℕ) (c : ClientRegister) (m : Map ClientRegister)
      → Apart c.endpoint m
      → find_client e (place k c m) ≡ (if same c.endpoint e then some (k, c) else find_client e m)
  unfolding find_client place
  find_client-place e k c [] a = refl
  find_client-place e k c ((j, w) ∷ m) a = elim (Bool-cases (ltb k j)) [
    | inl before ↦ rw before
    | inr behind ↦
        rw (behind, find_client-place e k c m a.1)
          (elim (Bool-cases (same w.endpoint e)) [
            | inl q ↦ rw (q, same-ne c.endpoint e (λ z. a.0 ((same_iff w.endpoint e).0 q ∙ sym z)))
            | inr q ↦ rw q
          ])
  ]

  -- What a search that finds an entry says of it.
  pub find_client-some :
      (e : Endpoint) (id : ℕ) (c : ClientRegister) (m : Map ClientRegister)
      → find_client e m ≡ some (id, c)
      → (c.endpoint ≡ e) × Mem id (keys m) × (All (λ x. x.1.id ≡ x.0) m → c.id ≡ id)
  unfolding find_client
  find_client-some e id c [] h = absurd (cc h)
  find_client-some e id c ((j, w) ∷ m) h = elim (Bool-cases (same w.endpoint e)) [
    | inl q ↦
        let found : ◌≡◌ {A = Option (ℕ × ClientRegister)} (some (j, w)) (some (id, c)) =
          rw q at h in
        let at_key : j ≡ id = ground arith in
        let at_value : w ≡ c = ground arith in
        (
          rw (← at_value) ((same_iff w.endpoint e).0 q),
          mem-cons.1 (Or.inl (sym at_key)),
          λ own. rw (← at_value, ← at_key) own.0,
        )
    | inr q ↦
        let (a, b, d) = find_client-some e id c m (rw q at h) in
        (a, mem-cons.1 (Or.inr b), λ own. d own.1)
  ]

  -- A search after the entry that was found is gone. Its key is in no other entry.
  pub find_client-erase :
      (e e' : Endpoint) (id : ℕ) (c : ClientRegister) (m : Map ClientRegister)
      → find_client e m ≡ some (id, c)
      → Nodup (keys m)
      → Separate m
      → (find_client e (erase id m) ≡ none)
        × (e' ≢ e → find_client e' (erase id m) ≡ find_client e' m)
  unfolding find_client erase
  find_client-erase e e' id c [] h d s = absurd (cc h)
  find_client-erase e e' id c ((j, w) ∷ m) h d s = elim (Bool-cases (same w.endpoint e)) [
    | inl q ↦
        let found : ◌≡◌ {A = Option (ℕ × ClientRegister)} (some (j, w)) (some (id, c)) =
          rw q at h in
        let at_key : j ≡ id = ground arith in
        let at_end = (same_iff w.endpoint e).0 q in
        rw ((==_iff j id).1 at_key) (
          find_client-Apart e m (subst (λ z. Apart z m) at_end s.0),
          λ ne. rw (same-ne w.endpoint e' (λ z. ne (sym z ∙ at_end))),
        )
    | inr q ↦
        let rest : find_client e m ≡ some (id, c) = rw q at h in
        let (_, among, _) = find_client-some e id c m rest in
        let apart =
          test_of_ne j id λ z. (Nodup-cons.0 d).0 (subst (λ k. Mem k (keys m)) (sym z) among) in
        let (gone, others) = find_client-erase e e' id c m rest (Nodup-cons.0 d).1 s.1 in
        rw apart (rw q gone, λ ne. rw (others ne))
  ]
