-- ===== src/Game/Standing.antt =====
-- Every object of a game stands somewhere: its own registry has its entity with a position. What the
-- steps of a round of the game need of that, and that they keep it.
pub mod Moves
pub mod Actions
pub mod Waves
pub mod Collisions
pub mod Removals
pub mod Rounds
use bee_r_type.Prelude.{ℕ, ◌≡◌, refl, Result, ok, ◌>>=◌, All, Succeeds, >>=-Succeeds, [], ◌∷◌}
use bee_r_type.Prelude.Map.{Map}
use bee_r_type.Platform.{Platform}
use bee_r_type.Ecs.Components.{Position}
use bee_r_type.Ecs.Registry.{Registry}
use bee_r_type.Entities.{Body, Player, new_body, move_body, position_of, move_player, new_player}
use bee_r_type.Entities.Moving.{
  StandsAt, StandsAt-position_of, move_body-StandsAt, new_body-StandsAt,
}
use bee_r_type.Game.State.{Game}
use bee_r_type.Game.Spawning.Total.{IsReady, new_body-total}
use bee_r_type.Game.Drift.{move_each}

module _ ⦃p : Platform⦄ where
  open p use {Real, lit}

  abbrev pub IsPlaced : Body → Type 0
  IsPlaced b = (at : Position) × StandsAt at b

  abbrev pub ArePlaced : Map Body → Type 0
  ArePlaced m = All (λ x. IsPlaced x.1) m

  abbrev pub PlayersPlaced : Map Player → Type 0
  PlayersPlaced m = All (λ x. IsPlaced x.1.body) m

  abbrev pub HasPositions : Game → Type 0
  HasPositions g =
      PlayersPlaced g.players
      × ArePlaced g.bullets
      × ArePlaced g.enemies
      × ArePlaced g.bosses
      × IsReady g.registry

  -- Calls that keep every object in its place, one after the other.
  pub >>=-HasPositions :
      (call : Result Game) (next : Game → Result Game)
      → Succeeds call HasPositions
      → ((g : Game) → HasPositions g → Succeeds (next g) HasPositions)
      → Succeeds (call >>= next) HasPositions
  >>=-HasPositions call next s rest = >>=-Succeeds HasPositions HasPositions call next s rest

  pub position_of-total : (b : Body) → IsPlaced b → Succeeds (position_of b) (λ _. Unit {0})
  position_of-total b (at, s) = (at, StandsAt-position_of at b s, tt)

  pub move_body-IsPlaced :
      (dx dy : Real) (b : Body) → IsPlaced b → Succeeds (move_body dx dy b) IsPlaced
  move_body-IsPlaced dx dy b (at, s) =
      let (b', moves, s', _) = move_body-StandsAt dx dy at b s in (b', moves, (_, s'))

  pub new_body-IsPlaced :
      (r : Registry) (at : Position) → IsReady r → Succeeds (new_body r at) IsPlaced
  new_body-IsPlaced r at ready =
      let (b, made) = new_body-total r at ready in (b, made, (at, new_body-StandsAt r at b made))

  pub move_player-IsPlaced :
      (dx dy : Real) (q : Player)
      → IsPlaced q.body
      → Succeeds (move_player dx dy q) (λ r. IsPlaced r.body)
  unfolding move_player
  move_player-IsPlaced dx dy q h =
      >>=-Succeeds IsPlaced (λ r. IsPlaced r.body) (move_body dx dy q.body) _
        (move_body-IsPlaced dx dy q.body h) (λ b s. (record q { body = b }, refl, s))

  pub move_each-ArePlaced :
      (step : Body → Result Body)
      → ((b : Body) → IsPlaced b → Succeeds (step b) IsPlaced)
      → (m : Map Body) → ArePlaced m
      → Succeeds (move_each step m) ArePlaced
  unfolding move_each
  move_each-ArePlaced step moves [] h = ([], refl, tt)
  move_each-ArePlaced step moves ((id, b) ∷ m) h =
      >>=-Succeeds IsPlaced ArePlaced (step b) _ (moves b h.0) (λ b' s.
        >>=-Succeeds ArePlaced ArePlaced (move_each step m) _ (move_each-ArePlaced step moves m h.1)
          (λ m' rest. ((id, b') ∷ m', refl, (s, rest))))
