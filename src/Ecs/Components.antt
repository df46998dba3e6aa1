-- ===== src/Ecs/Components.antt =====
-- The component structs of ECS/components/.
use bee_r_type.Prelude.{Bool}
use bee_r_type.Platform.{Platform}

module _ ⦃p : Platform⦄ where
  open p use {Real, Shape}

  pub record Position : Type 0 where
    pub x : Real
    pub y : Real

  pub record Velocity : Type 0 where
    pub vx : Real
    pub vy : Real

  pub record Drawable : Type 0 where
    pub shape : Shape

  pub record Projectile : Type 0 where
    pub speed : Real

pub data Controllable : Type 0 where
  controllable : Controllable

pub record Collidable : Type 0 where
  pub is_collidable : Bool
