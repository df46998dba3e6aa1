-- ===== src/Server/Clients.antt =====
-- The registered clients and their identifiers, across every history of requests.
use mathlib.Core.List.{Perm, Nodup, Mem, Nodup-append, perm_middle, append-nil, mem-cons_self}
use mathlib.Core.List.{perm_append_singleton, mem-append}
use mathlib.Core.List.Perm
use mathlib.Core.Logic.Or
use bee_r_type.Prelude.{
  ℕ, suc, ◌+◌, ◌%◌, ◌^◌, ◌<◌, ◌≤◌, ◌≡◌, refl, sym, subst, ◌∙◌, ◌≢◌, inl, inr, none, some, List, [],
  ◌∷◌, ◌++◌, arith, All, Option-cases,
}
use bee_r_type.Prelude.Map.{keys, place, emplace, erase}
use bee_r_type.Prelude.Map.Entries.{place-All, erase-All}
use bee_r_type.Prelude.Map.Laws.{find-missing}
use bee_r_type.Prelude.Int.{negsuc}
use bee_r_type.Platform.{Platform}
use bee_r_type.Server.{
  Server, ClientRegister, find_client, add_client, new_client, create_client, disconnect_data,
  reply, to_int,
}
use bee_r_type.Server.Search.{
  below, lt_of_mem-below, below-Nodup, keys-place, keys-erase, Separate, find_client-none,
  place-Separate, erase-Separate, find_client-place, find_client-some, find_client-erase, same-ne,
}

freed : (k : ℕ) (xs ys : List ℕ) → Perm (xs ++ (ys ++ k ∷ [])) (k ∷ (xs ++ ys))
freed k xs ys = Perm.trans (Perm.append_left xs (perm_append_singleton k ys)) (perm_middle xs ys)

module _ ⦃p : Platform⦄ where
  open p use {Endpoint, same, same_iff}

  -- The identifiers in use and those waiting for reuse are together the numbers below the counter, each
  -- once, and the counter is a 32-bit number; an entry stands under its own identifier; no two clients
  -- share an endpoint.
  pub record IsValid (s : Server) : Type 0 where
    pub ids : Perm (keys s.clients ++ s.available_ids) (below s.nb_clients)
    pub bounded : s.nb_clients < 2 ^ 32
    pub own : All (λ x. x.1.id ≡ x.0) s.clients
    pub separate : Separate s.clients

  keys-Nodup : (s : Server) → IsValid s → Nodup (keys s.clients ++ s.available_ids)
  keys-Nodup s v = Perm.nodup (Perm.symm v.ids) (below-Nodup s.nb_clients)

  -- An identifier in use is a 32-bit number.
  wrapped :
      (s : Server) (v : IsValid s) (id : ℕ) (c : ClientRegister)
      → Mem id (keys s.clients)
      → c.id ≡ id
      → c.id % 2 ^ 32 ≡ id
  wrapped s v id c among own =
      let m : Mem id (keys s.clients ++ s.available_ids) = mem-append.1 (Or.inl among) in
      omega (arith, lt_of_mem-below s.nb_clients id ((Perm.mem_iff v.ids).0 m), v.bounded, own)

  -- An identifier that is not in use: the insertion takes place, and keeps what does not concern keys.
  add_client-fresh :
      (k : ℕ) (e : Endpoint) (s : Server)
      → ¬ Mem k (keys s.clients)
      → (add_client k e s).clients ≡ place k (record { id = k; endpoint = e }) s.clients
  unfolding add_client emplace
  add_client-fresh k e s h = rw (find-missing k s.clients h, emplace)

  added-IsValid :
      (k : ℕ) (e : Endpoint) (s s' : Server)
      → IsValid s
      → find_client e s.clients ≡ none
      → s'.clients ≡ place k (record { id = k; endpoint = e }) s.clients
      → Perm (k ∷ (keys s.clients ++ s'.available_ids)) (below s'.nb_clients)
      → s'.nb_clients < 2 ^ 32
      → IsValid s'
  added-IsValid k e s s' v missing h ids bounded =
      let c : ClientRegister = record { id = k; endpoint = e } in
      let apart = find_client-none e s.clients missing in
      record {
        ids =
            subst (λ m. Perm (keys m ++ s'.available_ids) (below s'.nb_clients)) (sym h)
              (Perm.trans (Perm.append_right s'.available_ids (keys-place k c s.clients)) ids);
        bounded = bounded;
        own = subst (All (λ x. x.1.id ≡ x.0)) (sym h) (place-All _ k c s.clients refl v.own);
        separate = subst Separate (sym h) (place-Separate k c s.clients apart v.separate);
      }

  -- What a registration does, whichever way the identifier is found.
  abbrev Registers : Endpoint → Server → Server × ℕ → Type 0
  Registers e s (s', k) =
      IsValid s'
      × (s'.clients ≡ place k (record { id = k; endpoint = e }) s.clients)
      × ¬ Mem k (keys s.clients)
      × (s'.nb_clients ≤ s.nb_clients + 1)

  new_client-Registers :
      (ids : List ℕ) (e : Endpoint) (s : Server)
      → s.available_ids ≡ ids
      → IsValid s
      → s.nb_clients + 1 < 2 ^ 32
      → find_client e s.clients ≡ none
      → Registers e s (new_client ids e s)
  unfolding new_client
  new_client-Registers [] e s q v room missing =
      let counter : (s.nb_clients + 1) % 2 ^ 32 ≡ suc s.nb_clients = omega arith in
      let used : Perm (keys s.clients ++ []) (below s.nb_clients) =
        subst (λ l. Perm (keys s.clients ++ l) (below s.nb_clients)) q v.ids in
      let fresh : ¬ Mem s.nb_clients (keys s.clients) = λ m. absurd (
        omega (
          arith,
          lt_of_mem-below s.nb_clients s.nb_clients ((Perm.mem_iff used).0 (rw append-nil m)),
        )) in
      let s' = record s { nb_clients = (s.nb_clients + 1) % 2 ^ 32 } in
      let added = add_client-fresh s.nb_clients e s' fresh in
      (
        added-IsValid s.nb_clients e s (add_client s.nb_clients e s') v missing added
            (rw (q, counter) (Perm.cons s.nb_clients used)) (omega arith),
        added,
        fresh,
        omega arith,
      )
  new_client-Registers (k ∷ rest) e s q v room missing =
      let used : Perm (keys s.clients ++ (k ∷ rest)) (below s.nb_clients) =
        subst (λ l. Perm (keys s.clients ++ l) (below s.nb_clients)) q v.ids in
      let once : Nodup (keys s.clients ++ (k ∷ rest)) =
        Perm.nodup (Perm.symm used) (below-Nodup s.nb_clients) in
      let fresh : ¬ Mem k (keys s.clients) = λ m. (Nodup-append.0 once).2 k m mem-cons_self in
      let s' = record s { available_ids = rest } in
      let added = add_client-fresh k e s' fresh in
      (
        added-IsValid k e s (add_client k e s') v missing added
            (Perm.trans (Perm.symm (perm_middle (keys s.clients) rest)) used) v.bounded,
        added,
        fresh,
        omega arith,
      )

  -- `createClient` in a valid server whose counter has room. It returns the identifier under which a
  -- search now finds the endpoint. An endpoint that was registered keeps its client and changes nothing;
  -- otherwise the identifier was no client's. Every other endpoint is found as before, or not, and the
  -- server stays valid.
  pub create_client_lem :
      (e : Endpoint) (s : Server)
      → IsValid s
      → s.nb_clients + 1 < 2 ^ 32
      → let (s', k) = create_client e s in
        IsValid s'
        × ((c : ClientRegister) × (find_client e s'.clients ≡ some (k, c))
            × (c.id ≡ k)
            × (c.endpoint ≡ e))
        × ((e' : Endpoint) → e' ≢ e → find_client e' s'.clients ≡ find_client e' s.clients)
        × ((find_client e s.clients ≢ none → s' ≡ s)
            × (find_client e s.clients ≡ none → ¬ Mem k (keys s.clients)))
        × (s'.nb_clients ≤ s.nb_clients + 1)
  unfolding create_client
  create_client_lem e s v room = elim (Option-cases (find_client e s.clients)) [
    | inr ((k, c), q) ↦
        let (at_end, among, own) = find_client-some e k c s.clients q in
        rw (q, create_client)
          (v, (c, q, own v.own, at_end), λ e' ne. refl, (λ _. refl, λ z. absurd (cc)), omega arith)
    | inl q ↦
        let new = new_client s.available_ids e s in
        let (valid, added, fresh, bound) = new_client-Registers s.available_ids e s refl v room q in
        let c : ClientRegister = record { id = new.1; endpoint = e } in
        let apart = find_client-none e s.clients q in
        rw (q, create_client)
          (
            valid,
            (
              c,
              rw added (find_client-place e new.1 c s.clients apart ∙ rw ((same_iff e e).1 refl)),
              refl,
              refl,
            ),
            λ e' ne. rw added (
                find_client-place e' new.1 c s.clients apart ∙ rw (same-ne e e' (λ z. ne (sym z)))),
            (λ z. absurd (z refl), λ _. fresh),
            bound,
          )
  ]

  -- `disconnectData` in a valid server. The endpoint of a client is found no more, its identifier,
  -- as an `int`, is the result, and the identifier itself goes to the end of those for reuse; for any other endpoint the result is -1
  -- and the clients stay. Other endpoints are found as before, and the server stays valid.
  pub disconnect_data_lem :
      (e : Endpoint) (s : Server)
      → IsValid s
      → let (s', k) = disconnect_data e s in
        IsValid s'
        × (find_client e s'.clients ≡ none)
        × ((e' : Endpoint) → e' ≢ e → find_client e' s'.clients ≡ find_client e' s.clients)
        × ((id : ℕ) (c : ClientRegister)
            → find_client e s.clients ≡ some (id, c)
            → (k ≡ to_int id) × (s'.available_ids ≡ s.available_ids ++ id ∷ []))
        × (find_client e s.clients ≡ none → (k ≡ negsuc 0) × (s'.clients ≡ s.clients))
        × (s'.nb_clients ≡ s.nb_clients)
  unfolding disconnect_data reply
  disconnect_data_lem e s v = elim (Option-cases (find_client e s.clients)) [
    | inl q ↦
        rw (q, disconnect_data)
          (
            record { ids = v.ids; bounded = v.bounded; own = v.own; separate = v.separate },
            q,
            λ e' ne. refl,
            (λ id c z. absurd (cc)),
            (λ _. (refl, refl)),
            refl,
          )
    | inr ((id, c), q) ↦
        let (at_end, among, own) = find_client-some e id c s.clients q in
        let once = (Nodup-append.0 (keys-Nodup s v)).0 in
        let left = erase id s.clients in
        let small : c.id % 2 ^ 32 ≡ id = wrapped s v id c among (own v.own) in
        rw (q, disconnect_data)
          (
            record {
              ids = rw small (
                  Perm.trans (freed id (keys left) s.available_ids) (
                    Perm.trans
                      (Perm.append_right s.available_ids
                        (Perm.symm (keys-erase id s.clients among)))
                      v.ids));
              bounded = v.bounded;
              own = erase-All _ id s.clients v.own;
              separate = erase-Separate id s.clients v.separate;
            },
            (find_client-erase e e id c s.clients q once v.separate).0,
            λ e' ne. (find_client-erase e e' id c s.clients q once v.separate).1 ne,
            (λ id' c' z.
                let same_id : id ≡ id' = ground arith in
                rw (small, own v.own, same_id) (refl, refl)),
            (λ z. absurd (cc)),
            refl,
          )
  ]
