-- ===== src/Network/Packet.antt =====
-- `PacketType` of Network/include/PacketType.hpp and `Packet` of Network/include/Packet.hpp.
use bee_r_type.Prelude.{ℕ, ◌-◌, ltb, if◌then◌else◌}
use bee_r_type.Prelude.Int.{ℤ, pos, negsuc}
use bee_r_type.Platform.{Platform}
use bee_r_type.Network.Data.{
  StartData, JoinData, ReqConnect, PositionData, PlayerPositionData, ScoreData, EntityData,
  DisconnectData, DeathData, BossData,
}

pub data PacketType : Type 0 where
  none_packet req_connect disconnected game_start player_dead player_join player_shoot : PacketType
  game_end player_right player_left player_up player_down : PacketType
  create_enemy create_boss create_player create_bullet : PacketType
  change game_started game_not_started ui_update : PacketType
  destroy_player destroy_enemy destroy_boss destroy_bullet heartbeat : PacketType

abbrev pub type_code : PacketType → ℕ
type_code none_packet = 0
type_code req_connect = 1
type_code disconnected = 2
type_code game_start = 3
type_code player_dead = 4
type_code player_join = 5
type_code player_shoot = 6
type_code game_end = 15
type_code player_right = 16
type_code player_left = 17
type_code player_up = 18
type_code player_down = 19
type_code create_enemy = 22
type_code create_boss = 23
type_code create_player = 24
type_code create_bullet = 25
type_code change = 29
type_code game_started = 30
type_code game_not_started = 31
type_code ui_update = 34
type_code destroy_player = 35
type_code destroy_enemy = 36
type_code destroy_boss = 37
type_code destroy_bullet = 38
type_code heartbeat = 99

module _ ⦃p : Platform⦄ where
  -- The alternatives of the variant.
  pub data Payload : Type 0 where
    start_data : StartData → Payload
    join_data : JoinData → Payload
    connect_data : ReqConnect → Payload
    position_data : PositionData → Payload
    player_position_data : PlayerPositionData → Payload
    score_data : ScoreData → Payload
    entity_payload : EntityData → Payload
    disconnect_payload : DisconnectData → Payload
    death_data : DeathData → Payload
    boss_data : BossData → Payload

  -- The type holds whatever number the datagram begins with.
  pub record Packet : Type 0 where
    pub code : ℤ
    pub payload : Payload

  -- `Network::Packet packet;`, and its type. The variant's constructor makes its first alternative, with
  -- the identifier 0.
  unfoldable pub typed_packet : ℤ → Packet
  typed_packet code = record { code = code; payload = start_data (record { id = pos 0 }) }

-- The value of a byte as a signed `char`.
abbrev pub char_value : ℕ → ℤ
char_value b = if ltb b 128 then pos b else negsuc (255 - b)
