-- ===== src/Network/Data.antt =====
-- The payloads of Network/include/Data.hpp. An array of `MAX_PLAYERS` elements is a pair.
use bee_r_type.Prelude.Int.{ℤ}
use bee_r_type.Prelude.Decimal.{Bytes}
use bee_r_type.Platform.{Platform}

pub record StartData : Type 0 where
  pub id : ℤ

pub record JoinData : Type 0 where
  pub id : ℤ

pub record ReqConnect : Type 0 where
  pub id : ℤ

pub record ScoreData : Type 0 where
  pub score : ℤ

pub record DisconnectData : Type 0 where
  pub id : ℤ

pub record DeathData : Type 0 where
  pub id : ℤ
  pub reason : ℤ

module _ ⦃p : Platform⦄ where
  open p use {Real}

  pub record PositionData : Type 0 where
    pub direction : Bytes
    pub x : Real
    pub y : Real

  pub record PlayerPositionData : Type 0 where
    pub pos_data : PositionData × PositionData

  pub record EntityData : Type 0 where
    pub id : ℤ
    pub type : ℤ
    pub pos_data : PositionData
    pub vx : Real
    pub vy : Real

  pub record BossData : Type 0 where
    pub id : ℤ
    pub pos_data : PositionData
    pub alive : ℤ
