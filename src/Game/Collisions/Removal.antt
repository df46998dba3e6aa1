-- ===== src/Game/Collisions/Removal.antt =====
-- The removal of the entities that died in a round.
use native.Mathlib.Omega.{arith}
use mathlib.Core.List.{Nodup}
use bee_r_type.Prelude.{
  ℕ, ◌+◌, ◌≡◌, refl, sym, ap, ◌∙◌, ◌≢◌, subst, inl, inr, Bool, true, false, Option, none, some,
  List, [], ◌∷◌, if◌then◌else◌, ◌==◌, ==_iff, Bool-cases, Option-cases, All, length, length-append,
}
use bee_r_type.Prelude.Map.{Map, find, erase, keys}
use bee_r_type.Prelude.Map.Laws.{find-erase, erase-Nodup}
use bee_r_type.Platform.{Platform}
use bee_r_type.Ecs.Registry.{is_among}
use bee_r_type.Network.Packet.{PacketType, destroy_enemy}
use bee_r_type.Entities.{Body}
use bee_r_type.Server.{announce, create_packet, broadcast}
use bee_r_type.Game.State.{Game, destroy_data}
use bee_r_type.Game.Spawning.{announce_in}
use bee_r_type.Game.Collisions.{
  remove_loop, remove_enemies, remove_bosses, remove_players, remove_bullets,
}

if_none {ℓ} : {A : Type ℓ} (b : Bool) {o : Option A} → o ≡ none → (if b then none else o) ≡ none
if_none true h = refl
if_none false h = h

if_twice {ℓ} :
    {A : Type ℓ} (a b : Bool) (o : Option A)
    → (if b then none else (if a then none else o)) ≡ (if (if a then true else b) then none else o)
if_twice true true o = refl
if_twice true false o = refl
if_twice false b o = refl

module _ ⦃p : Platform⦄ where
  announce_in-length :
      (type : PacketType) (id : ℕ) (g : Game)
      → length (announce_in type (destroy_data id) g).server.send_queue
        ≡ length g.server.send_queue + 1
  unfolding announce_in announce create_packet broadcast
  announce_in-length type id g = length-append g.server.send_queue _

  module _ {ℓ} {V : Type ℓ} (type : PacketType) (also : ℕ → Game → Game) where
    -- Not one of the identifiers in a list is a key.
    abbrev NoneIn : List ℕ → Map V → Type ℓ
    NoneIn ids m = All (λ id. find id m ≡ none) ids

    -- One step of the loop, on either branch.
    loop_miss :
        (id : ℕ) (ids : List ℕ) (m : Map V) (g : Game)
        → find id m ≡ none
        → let (left, m', g') = remove_loop type also ids m g in
          remove_loop type also (id ∷ ids) m g ≡ (id ∷ left, m', g')
    unfolding remove_loop
    loop_miss id ids m g q = rw (q, remove_loop)

    loop_hit :
        (id : ℕ) (ids : List ℕ) (m : Map V) (g : Game) (v : V)
        → find id m ≡ some v
        → remove_loop type also (id ∷ ids) m g
          ≡ remove_loop type also ids (erase id m) (also id (announce_in type (destroy_data id) g))
    unfolding remove_loop
    loop_hit id ids m g v q = rw (q, remove_loop)

    -- What is left of the map: the entries whose identifier is not in the list.
    loop-find :
        (ids : List ℕ) (m : Map V) (g : Game) (j : ℕ)
        → Nodup (keys m)
        → find j (remove_loop type also ids m g).1 ≡ (if is_among j ids then none else find j m)
    loop-find [] m g j d = unfold remove_loop in refl
    loop-find (id ∷ ids) m g j d = elim (Option-cases (find id m)) [
      | inl q ↦ rw (loop_miss id ids m g q) (
          loop-find ids m g j d ∙ elim (Bool-cases (id == j)) [
            | inl e ↦ rw e (if_none (is_among j ids) (rw (← (==_iff id j).0 e) q))
            | inr e ↦ rw e
          ])
      | inr (v, q) ↦ rw (loop_hit id ids m g v q) (
          loop-find ids (erase id m) _ j (erase-Nodup id m d)
          ∙ ap (λ o. if is_among j ids then none else o) (find-erase j id m d)
          ∙ if_twice (id == j) (is_among j ids) (find j m))
    ]

    -- What is left of the list: identifiers with no entry any more.
    loop-NoneIn :
        (ids : List ℕ) (m : Map V) (g : Game)
        → Nodup (keys m)
        → let (left, m', g') = remove_loop type also ids m g in NoneIn left m'
    loop-NoneIn [] m g d = unfold remove_loop in tt
    loop-NoneIn (id ∷ ids) m g d = elim (Option-cases (find id m)) [
      | inl q ↦
          rw (loop_miss id ids m g q)
            (loop-find ids m g id d ∙ if_none (is_among id ids) q, loop-NoneIn ids m g d)
      | inr (v, q) ↦
          rw (loop_hit id ids m g v q) (loop-NoneIn ids (erase id m) _ (erase-Nodup id m d))
    ]

    -- Each identifier is either left in the list or announced once.
    loop_count :
        ((id : ℕ) (g : Game) → (also id g).server ≡ g.server)
        → (ids : List ℕ) (m : Map V) (g : Game)
        → let (left, m', g') = remove_loop type also ids m g in
          length left + length g'.server.send_queue ≡ length ids + length g.server.send_queue
    loop_count same [] m g = unfold remove_loop in refl
    loop_count same (id ∷ ids) m g = elim (Option-cases (find id m)) [
      | inl q ↦ rw (loop_miss id ids m g q) (omega (arith, loop_count same ids m g))
      | inr (v, q) ↦ rw (loop_hit id ids m g v q) (
          omega (
            arith,
            loop_count same ids (erase id m) (also id (announce_in type (destroy_data id) g)),
            ap (λ s. length s.send_queue) (same id (announce_in type (destroy_data id) g)),
            announce_in-length type id g,
          ))
    ]

    -- A list without any identifier of the map stays as it is, and nothing is removed or announced.
    loop_idle :
        (ids : List ℕ) (m : Map V) (g : Game)
        → NoneIn ids m
        → remove_loop type also ids m g ≡ (ids, m, g)
    loop_idle [] m g h = unfold remove_loop in refl
    loop_idle (id ∷ ids) m g h =
        loop_miss id ids m g h.0 ∙ ap (λ t. (id ∷ t.0, t.1, t.2)) (loop_idle ids m g h.1)

  -- What a removal promises of one kind of entity: those whose identifier is listed are gone and all
  -- others stay; the list keeps only identifiers that no entity has; and for each identifier that it
  -- drops, one packet is queued.
  abbrev pub Removes {ℓ} : {V : Type ℓ} → List ℕ → Map V → Game → List ℕ → Map V → Game → Type ℓ
  Removes ids m g left m' g' =
      ((j : ℕ) → find j m' ≡ (if is_among j ids then none else find j m))
      × All (λ id. find id m' ≡ none) left
      × (length left + length g'.server.send_queue ≡ length ids + length g.server.send_queue)

  remove_enemies_lem :
      (g : Game)
      → Nodup (keys g.enemies)
      → let g' = remove_enemies g in
        Removes g.dead_enemies g.enemies g g'.dead_enemies g'.enemies g'
  unfolding remove_enemies
  remove_enemies_lem g d = (
    λ j. loop-find _ _ g.dead_enemies g.enemies g j d,
    loop-NoneIn _ _ g.dead_enemies g.enemies g d,
    loop_count _ _ (λ id g. refl) g.dead_enemies g.enemies g,
  )

  -- `removeEntities` on each of the four maps, if no key stands twice in any of them: the entities
  -- whose identifier is listed are gone and all others stay; the list keeps only identifiers that
  -- no entity has; and for each identifier that it drops, one packet is queued.
  pub remove_entities_lem :
      (g : Game)
      → Nodup (keys g.enemies)
      → Nodup (keys g.bosses)
      → Nodup (keys g.players)
      → Nodup (keys g.bullets)
      → (let g' = remove_enemies g in
          Removes g.dead_enemies g.enemies g g'.dead_enemies g'.enemies g')
        × (let g' = remove_bosses g in Removes g.dead_bosses g.bosses g g'.dead_bosses g'.bosses g')
        × (let g' = remove_players g in
            Removes g.dead_players g.players g g'.dead_players g'.players g')
        × (let g' = remove_bullets g in
            Removes g.dead_bullets g.bullets g g'.dead_bullets g'.bullets g')
  unfolding remove_bosses remove_players remove_bullets
  remove_entities_lem g de db dp dl = (
    remove_enemies_lem g de,
    (
      λ j. loop-find _ _ g.dead_bosses g.bosses g j db,
      loop-NoneIn _ _ g.dead_bosses g.bosses g db,
      loop_count _ _ (λ id g. refl) g.dead_bosses g.bosses g,
    ),
    (
      λ j. loop-find _ _ g.dead_players g.players g j dp,
      loop-NoneIn _ _ g.dead_players g.players g dp,
      loop_count _ _ (λ id g. refl) g.dead_players g.players g,
    ),
    (
      λ j. loop-find _ _ g.dead_bullets g.bullets g j dl,
      loop-NoneIn _ _ g.dead_bullets g.bullets g dl,
      loop_count _ _ (λ id g. refl) g.dead_bullets g.bullets g,
    ),
  )

  remove_enemies_idle :
      (g : Game) → All (λ id. find id g.enemies ≡ none) g.dead_enemies → remove_enemies g ≡ g
  unfolding remove_enemies
  remove_enemies_idle g h =
      ap (λ t. record (t.2) { dead_enemies = t.0; enemies = t.1 })
        (loop_idle destroy_enemy (λ id g. g) g.dead_enemies g.enemies g h)

  loop_twice :
      (id : ℕ) (m : Map Body) (g : Game)
      → Nodup (keys m)
      → find id m ≢ none
      → (remove_loop destroy_enemy (λ id g. g) (id ∷ id ∷ []) m g).0 ≡ id ∷ []
  loop_twice id m g d there = elim (Option-cases (find id m)) [
    | inl q ↦ absurd (there q)
    | inr (v, q) ↦
        let gone : find id (erase id m) ≡ none =
          find-erase id id m d ∙ rw ((==_iff id id).1 refl) in
        rw (loop_hit destroy_enemy (λ id g. g) id (id ∷ []) m g v q) (
          rw (loop_miss destroy_enemy (λ id g. g) id [] (erase id m) _ gone)
            (unfold remove_loop in refl))
  ]

  -- An enemy in the map that is listed twice, as when two bullets hit it in one round, stays in the
  -- list for good: if nothing else is listed and no key stands twice in the map, the removal leaves
  -- the identifier once, and another removal changes nothing at all.
  pub remove_enemies_stale :
      (id : ℕ) (g : Game)
      → g.dead_enemies ≡ id ∷ id ∷ []
      → Nodup (keys g.enemies)
      → find id g.enemies ≢ none
      → let g' = remove_enemies g in (g'.dead_enemies ≡ id ∷ []) × (remove_enemies g' ≡ g')
  remove_enemies_stale id g e d there = (
    unfold remove_enemies in
        subst (λ ids. (remove_loop destroy_enemy (λ id g. g) ids g.enemies g).0 ≡ id ∷ []) (sym e)
          (loop_twice id g.enemies g d there),
    remove_enemies_idle (remove_enemies g) (remove_enemies_lem g d).1,
  )
