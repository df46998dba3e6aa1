-- ===== src/Ecs/Systems.antt =====
-- The systems of ECS/systems/PositionSystem.hpp and ECS/systems/ProjectileSystem.hpp. Nothing registers
-- them; as a system of a registry, one gets the registry's own arrays.
pub mod Outcomes
pub mod Iteration
pub mod Flying
pub mod Moving
use bee_r_type.Prelude.{
  ℕ, zero, suc, ◌+◌, Bool, true, false, ◌&&◌, Option, none, some, ltb, if◌then◌else◌, Result, ok,
  ◌>>=◌,
}
use bee_r_type.Platform.{Platform}
use bee_r_type.Ecs.SparseArray
use bee_r_type.Ecs.SparseArray.{SparseArray}
use bee_r_type.Ecs.Components.{Position, Velocity, Projectile}
use bee_r_type.Ecs.Registry
use bee_r_type.Ecs.Registry.{
  Registry, System, position, velocity, projectile, get_components, put_array,
}

module _ ⦃p : Platform⦄ where
  open p use {Real, lit, add, mul, lt}

  -- `pos->x += vel->vx; pos->y += vel->vy;` where both are there.
  abbrev stepped : Option Position → Option Velocity → Option Position
  stepped (some pos) (some vel) = some (record { x = add pos.x vel.vx; y = add pos.y vel.vy })
  stepped pos _ = pos

  -- The loop from an index on, for so many indices at most. `pos` and `vel` are copies: the sums go to
  -- `pos'`, which ends with the iteration.
  unfoldable pub position_from :
      ℕ
      → ℕ
      → SparseArray Position × SparseArray Velocity
      → SparseArray Position × SparseArray Velocity
  position_from zero i s = s
  position_from (suc left) i (ps, vs) =
      elim (ltb i (SparseArray.size ps) && ltb i (SparseArray.size vs)) [
        | false ↦ (ps, vs)
        | true ↦
            let (ps', pos) = SparseArray.at i ps in
            let (vs', vel) = SparseArray.at i vs in position_from left (i + 1) (ps', vs')
      ]

  unfoldable pub position_system :
      SparseArray Position × SparseArray Velocity → SparseArray Position × SparseArray Velocity
  unfolding position_from
  position_system s = position_from (SparseArray.size s.0) 0 s

  -- `pos->x += vel->vx * proj->speed;` and the same of y.
  abbrev pub flown : Position → Velocity → Projectile → Position
  flown pos vel proj = record {
    x = add pos.x (mul vel.vx proj.speed);
    y = add pos.y (mul vel.vy proj.speed);
  }

  -- What is done for a projectile at an index, with the components that the arrays hold there.
  unfoldable pub fly :
      ℕ
      → Projectile
      → Option Position
      → Option Velocity
      → SparseArray Position
      → Registry
      → Result Registry
  fly i proj (some pos) (some vel) ps r =
      let pos' = flown pos vel proj in
      let r' = record r {
        arrays = put_array position (SparseArray.insert_at i pos' ps) r.arrays;
      } in
      if lt (lit 1280) pos'.x then Registry.kill_entity i r' else ok r'
  fly i proj _ _ ps r = ok r

  unfoldable pub projectile_at : ℕ → Option Projectile → Registry → Result Registry
  unfolding fly
  projectile_at i none r = ok r
  projectile_at i (some proj) r = do
    ps ← get_components position r
    vs ← get_components velocity r
    let pos = SparseArray.at i ps
    let vel = SparseArray.at i vs
    let arrays = put_array velocity vel.0 (put_array position pos.0 r.arrays)
    fly i proj pos.1 vel.1 pos.0 (record r { arrays = arrays })

  unfoldable pub projectile_from : ℕ → ℕ → Registry → Result Registry
  unfolding projectile_at
  projectile_from zero i r = ok r
  projectile_from (suc left) i r = do
    projs ← get_components projectile r
    elim (ltb i (SparseArray.size projs)) as (λ _. Result Registry) [
      | false ↦ ok r
      | true ↦ (projectile_at i (SparseArray.at i projs).1 r >>= projectile_from left (i + 1))
    ]

  unfoldable pub projectile_system : System
  unfolding projectile_from
  projectile_system r = do
    projs ← get_components projectile r
    projectile_from (SparseArray.size projs) 0 r
