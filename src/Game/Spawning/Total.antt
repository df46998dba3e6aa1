-- ===== src/Game/Spawning/Total.antt =====
-- When objects can be made: from a valid registry that knows positions and has identifiers left.
use bee_r_type.Prelude.{
  ℕ, ◌+◌, ◌^◌, ◌<◌, ◌≡◌, refl, sym, subst, ◌∙◌, ◌≢◌, inl, inr, true, none, Option-cases, ok, ok->>=,
  ◌>>=◌, arith,
}
use bee_r_type.Prelude.Int.{ℤ}
use bee_r_type.Platform.{Platform}
use bee_r_type.Ecs.SparseArray.{SparseArray, insert_at}
use bee_r_type.Ecs.Components.{Position}
use bee_r_type.Ecs.Registry.{
  Registry, put_array, position, spawn_entity, add_component, get_components, entity_exists,
  find_array, register_component,
}
use bee_r_type.Ecs.Registry.Lifetime.{IsValid, spawn_entity_fresh, spawn_entity-arrays}
use bee_r_type.Entities.{Body, new_body, new_enemy, new_boss}
use bee_r_type.Server.{Server}
use bee_r_type.Game.State.{Game, new_game}
use bee_r_type.Game.Spawning.{spawn_enemy, spawn_boss}

module _ ⦃p : Platform⦄ where
  open p use {Real, lit}

  pub record IsReady (r : Registry) : Type 0 where
    pub valid : IsValid r
    pub room : r.next_entity + 1 < 2 ^ 64
    pub positions : find_array position r.arrays ≢ none

  add_component-total :
      (e : ℕ) (at : Position) (r : Registry)
      → entity_exists e r ≡ true
      → find_array position r.arrays ≢ none
      → (r' : Registry) × (add_component position e at r ≡ ok r')
  unfolding get_components add_component
  add_component-total e at r lives known = elim (Option-cases (find_array position r.arrays)) [
    | inl q ↦ absurd (known q)
    | inr (xs, q) ↦
        let found : get_components position r ≡ ok xs = rw (q, get_components) in
        let goes_on : add_component position e at r
            ≡ (get_components position r >>= λ xs. ok (stored xs)) =
          rw (lives, add_component) in
        (stored xs, goes_on ∙ ok->>= (get_components position r) _ found)
  ]
    where
      stored : SparseArray Position → Registry
      stored xs = record r { arrays = put_array position (insert_at e at xs) r.arrays }

  pub new_body-total :
      (r : Registry) (at : Position) → IsReady r → (b : Body) × (new_body r at ≡ ok b)
  unfolding new_body
  new_body-total r at ready =
      let (_, lives, _, _, _, _) = spawn_entity_fresh r ready.valid ready.room in
      let known =
        subst (λ a. find_array position a ≢ none) (sym (spawn_entity-arrays r)) ready.positions in
      let (r', added) = add_component-total (spawn_entity r).1 at (spawn_entity r).0 lives known in
      (record { registry = r'; entity = (spawn_entity r).1 }, rw added)

  pub spawn_enemy-total :
      (id : ℕ) (y : Real) (g : Game)
      → IsReady g.registry
      → (g' : Game) × (spawn_enemy id y g ≡ ok g') × (g'.registry ≡ g.registry)
  unfolding spawn_enemy new_enemy
  spawn_enemy-total id y g ready =
      let (b, made) = new_body-total g.registry (record { x = lit 1000; y = y }) ready in
      (_, ok->>= (new_body g.registry (record { x = lit 1000; y = y })) _ made, refl)

  pub spawn_boss-total :
      (id : ℕ) (y : Real) (g : Game)
      → IsReady g.registry
      → (g' : Game) × (spawn_boss id y g ≡ ok g') × (g'.registry ≡ g.registry)
  unfolding spawn_boss new_boss
  spawn_boss-total id y g ready =
      let (b, made) = new_body-total g.registry (record { x = lit 1000; y = y }) ready in
      (_, ok->>= (new_body g.registry (record { x = lit 1000; y = y })) _ made, refl)

  pub new_game-IsReady : (server : Server) (unset : ℤ) → IsReady (new_game server unset).registry
  unfolding new_game register_component
  new_game-IsReady server unset = record {
    valid = record { spawned = λ e h. cc; once = tt };
    room = omega arith;
    positions = λ z. cc;
  }
