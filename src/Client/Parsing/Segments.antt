-- ===== src/Client/Parsing/Segments.antt =====
-- The segments between the `;` of a text.
use mathlib.Core.List.{append_assoc, append-nil}
use bee_r_type.Prelude.{
  ℕ, ◌≡◌, refl, sym, ap, ◌∙◌, ◌≢◌, inl, inr, false, none, some, List, [], ◌∷◌, ◌++◌, ◌==◌, All,
  ==_iff, Bool-cases,
}
use bee_r_type.Prelude.Decimal.{Bytes}
use bee_r_type.Network.Segments.{IsPlain, join}
use bee_r_type.Client.{segments}

not_semicolon : (c : ℕ) → c ≢ b';' → (c == b';') ≡ false
not_semicolon c h = elim (Bool-cases (c == b';')) [
  | inl q ↦ absurd (h ((==_iff c b';').0 q))
  | inr q ↦ q
]

segments-some :
    (seg s rest : Bytes)
    → IsPlain s
    → segments (some seg) (s ++ (b';' ∷ rest)) ≡ (seg ++ s) ∷ segments none rest
unfolding segments
segments-some seg [] rest h = ap (◌∷ segments none rest) (sym (append-nil seg))
segments-some seg (c ∷ s) rest h =
    rw (not_semicolon c h.0, segments)
      (segments-some (seg ++ c ∷ []) s rest h.1
        ∙ ap (λ l. l ∷ segments none rest) (append_assoc seg (c ∷ []) s))

segments-none :
    (s rest : Bytes) → IsPlain s → segments none (s ++ (b';' ∷ rest)) ≡ s ∷ segments none rest
unfolding segments
segments-none [] rest h = refl
segments-none (c ∷ s) rest h =
    rw (not_semicolon c h.0, segments) (segments-some (c ∷ []) s rest h.1)

segments_last_some : (seg s : Bytes) → IsPlain s → segments (some seg) s ≡ (seg ++ s) ∷ []
unfolding segments
segments_last_some seg [] h = ap (λ l. l ∷ []) (sym (append-nil seg))
segments_last_some seg (c ∷ s) h =
    rw (not_semicolon c h.0, segments)
      (segments_last_some (seg ++ c ∷ []) s h.1 ∙ ap (λ l. l ∷ []) (append_assoc seg (c ∷ []) s))

segments_last : (c : ℕ) (s : Bytes) → IsPlain (c ∷ s) → segments none (c ∷ s) ≡ (c ∷ s) ∷ []
unfolding segments
segments_last c s h = rw (not_semicolon c h.0, segments) (segments_last_some (c ∷ []) s h.1)

-- Splitting undoes joining, where the last segment is not empty.
pub segments-join :
    (ss : List Bytes) (c : ℕ) (s : Bytes)
    → All IsPlain ss
    → IsPlain (c ∷ s)
    → segments none (join ss (c ∷ s)) ≡ ss ++ (c ∷ s) ∷ []
segments-join [] c s h last = segments_last c s last
segments-join (t ∷ ss) c s h last =
    segments-none t (join ss (c ∷ s)) h.0 ∙ ap (λ l. t ∷ l) (segments-join ss c s h.1 last)

pub join-append : (ss : List Bytes) (d r : Bytes) → join ss d ++ (b';' ∷ r) ≡ join (ss ++ d ∷ []) r
join-append [] d r = refl
join-append (t ∷ ss) d r =
    append_assoc t (b';' ∷ join ss d) (b';' ∷ r) ∙ ap (λ l. t ++ (b';' ∷ l)) (join-append ss d r)
