-- ===== src/Ecs/Registry/Registration.antt =====
-- `register_component`: which kinds a registry knows, and which `kill_entity` erases.
use bee_r_type.Prelude.{
  ◌≡◌, refl, subst, sym, ◌∙◌, ◌≢◌, ◌↔◌, inl, inr, none, some, List, [], ◌∷◌, ◌++◌, Option-cases,
}
use bee_r_type.Platform.{Platform}
use bee_r_type.Ecs.SparseArray.{SparseArray}
use bee_r_type.Ecs.Registry.{Kind, Component, Registry, find_array, put_array, register_component}
use bee_r_type.Ecs.Registry.Storage.{HasKind, Kind-discrete, find-put_self, find-put_ne}
use bee_r_type.Ecs.Registry.Lifetime.{IsValid, IsWired}

module _ ⦃p : Platform⦄ where
  HasKind-end : (k : Kind) (ks : List Kind) → HasKind k (ks ++ k ∷ [])
  HasKind-end k [] = inl refl
  HasKind-end k (j ∷ ks) = inr (HasKind-end k ks)

  HasKind-append : (j k : Kind) (ks : List Kind) → j ≢ k → HasKind j (ks ++ k ∷ []) ↔ HasKind j ks
  HasKind-append j k [] ne = (λ h. elim h [ inl q ↦ absurd (ne q) | inr q ↦ q ], λ h. inr h)
  HasKind-append j k (i ∷ ks) ne = (
    λ h. elim h [ inl q ↦ inl q | inr q ↦ inr ((HasKind-append j k ks ne).0 q) ],
    λ h. elim h [ inl q ↦ inl q | inr q ↦ inr ((HasKind-append j k ks ne).1 q) ],
  )

  -- The registry with a new kind.
  abbrev registered : Kind → Registry → Registry
  registered k r = record r {
    arrays = put_array k [] r.arrays;
    erase_functions = r.erase_functions ++ k ∷ [];
  }

  register_component-known :
      (k : Kind) (r : Registry) (xs : SparseArray (Component k))
      → find_array k r.arrays ≡ some xs
      → register_component k r ≡ r
  unfolding register_component
  register_component-known k r xs q = rw (q, register_component)

  register_component-new :
      (k : Kind) (r : Registry)
      → find_array k r.arrays ≡ none
      → register_component k r ≡ registered k r
  unfolding register_component
  register_component-new k r q = rw (q, register_component)

  registered-IsWired : (k : Kind) (r : Registry) → IsWired r → IsWired (registered k r)
  registered-IsWired k r w j = elim (Kind-discrete j k) [
    | yes q ↦ (
      λ _. subst (λ i. find_array i (put_array k [] r.arrays) ≢ none) (sym q) found_new,
      λ _.
          subst (λ i. HasKind i (r.erase_functions ++ k ∷ [])) (sym q)
            (HasKind-end k r.erase_functions),
    )
    | no ne ↦
        let same = find-put_ne j k [] r.arrays ne in
        let old = HasKind-append j k r.erase_functions ne in
        (λ h z. (w j).0 (old.0 h) (sym same ∙ z), λ h. old.1 ((w j).1 (λ z. h (same ∙ z))))
  ]
    where
      found_new : find_array k (put_array k [] r.arrays) ≢ none
      found_new z =
          let found = find-put_self k [] r.arrays in
          let some_none : some [] ≡ none = sym found ∙ z in cc

  -- In a valid registry that erases exactly the kinds that have an array, registering a kind keeps
  -- both; the kind then has an array, and registering it again changes nothing.
  pub register_component-IsWired :
      (k : Kind) (r : Registry)
      → IsValid r
      → IsWired r
      → let r' = register_component k r in
        IsValid r' × IsWired r' × (find_array k r'.arrays ≢ none) × (register_component k r' ≡ r')
  register_component-IsWired k r v w = elim (Option-cases (find_array k r.arrays)) [
    | inr (xs, q) ↦
        subst Good (sym (register_component-known k r xs q))
          (v, w, (λ z. cc), register_component-known k r xs q)
    | inl q ↦
        let found = find-put_self k [] r.arrays in
        subst Good (sym (register_component-new k r q)) (
          record { spawned = v.spawned; once = v.once },
          registered-IsWired k r w,
          λ z. cc,
          register_component-known k (registered k r) [] found,
        )
  ]
    where
      Good : Registry → Type 0
      Good x = IsValid x × IsWired x × (find_array k x.arrays ≢ none) × (register_component k x ≡ x)
