-- ===== src/Game/Movement.antt =====
-- How players move: R-Type/src/Game.cpp, `handlePlayerMove` and what it calls.
pub mod Bounds
pub mod Keys
pub mod Changes
use bee_r_type.Prelude.{
  ℕ, zero, suc, ◌+◌, Bool, true, false, ◌&&◌, Option, none, some, List, [], ◌∷◌, ◌==◌,
  if◌then◌else◌, codes, length, Result, ok, thrown, out_of_range, ◌>>=◌, Exception, runtime_error,
  invalid_argument, undefined,
}
use bee_r_type.Prelude.Map
use bee_r_type.Prelude.Map.{Map}
use bee_r_type.Platform.{Platform}
use bee_r_type.Ecs.Components.{Position}
use bee_r_type.Network.Packet.{change}
use bee_r_type.Entities.{Body, Player, default_player, move_player, position_of}
use bee_r_type.Game.State.{Game, entity_data}
use bee_r_type.Game.Spawning.{announce_in}

module _ ⦃p : Platform⦄ where
  open p use {Real, lit, neg, add, sub, lt, same_real, print_real}

  -- `getPlayerPosition`, `getBulletPosition`, `getEnemyPosition`, `getBossPosition`.
  unfoldable pub get_player_position : ℕ → Game → Result Position
  unfolding position_of Map.find
  get_player_position id g = elim (Map.find id g.players) [
    | none ↦ thrown out_of_range
    | some q ↦ position_of q.body
  ]

  unfoldable pub body_position : ℕ → Map Body → Result Position
  unfolding position_of Map.find
  body_position id m = elim (Map.find id m) [ none ↦ thrown out_of_range | some b ↦ position_of b ]

  unfoldable pub get_bullet_position : ℕ → Game → Result Position
  unfolding body_position
  get_bullet_position id g = body_position id g.bullets

  unfoldable pub get_enemy_position : ℕ → Game → Result Position
  unfolding body_position
  get_enemy_position id g = body_position id g.enemies

  unfoldable pub get_boss_position : ℕ → Game → Result Position
  unfolding body_position
  get_boss_position id g = body_position id g.bosses

  -- One axis of `clampPositionToBounds`.
  unfoldable pub clamp : Real → Real → Real → Real
  clamp low high a = if lt a low then low else if lt high a then high else a

  unfoldable pub clamp_position_to_bounds : Real → Real → Position
  unfolding clamp
  clamp_position_to_bounds x y = record {
    x = clamp (lit 0) (lit 1195) x;
    y = clamp (lit 0) (lit 630) y;
  }

  -- `std::pair`'s `==`.
  abbrev pub same_position : Position → Position → Bool
  same_position a b = same_real a.x b.x && same_real a.y b.y

  -- Whether the position differs from the last one known, which it then becomes.
  unfoldable pub has_position_changed : ℕ → Position → Map Position → Bool × Map Position
  unfolding Map.find Map.assign Map.place Map.adjust
  has_position_changed id at known = elim (Map.find id known) [
    | none ↦ (true, Map.assign id at known)
    | some old ↦ if same_position old at then (false, known) else (true, Map.assign id at known)
  ]

  unfoldable pub announce_change : ℕ → Position → Game → Game
  unfolding has_position_changed announce_in
  announce_change id at g =
      let (changed, known) = has_position_changed id at g.last_known_positions in
      let g' = record g { last_known_positions = known } in
      if changed
      then announce_in change (entity_data id (print_real at.x) (print_real at.y) (codes ";0;0")) g'
      else g'

  -- The handler `catch (const std::out_of_range&)` of `playerPacketFactory`, which prints.
  abbrev pub or_out_of_range : Game → Result Game → Result Game
  or_out_of_range g (thrown out_of_range) = ok g
  or_out_of_range g (thrown runtime_error) = thrown runtime_error
  or_out_of_range g (thrown invalid_argument) = thrown invalid_argument
  or_out_of_range g (thrown undefined) = thrown undefined
  or_out_of_range g (ok g') = ok g'

  unfoldable pub announce_if_changed : ℕ → Game → Result Game
  unfolding get_player_position announce_change
  announce_if_changed id g =
      or_out_of_range g (get_player_position id g >>= λ at. ok (announce_change id at g))

  -- The loop from an identifier on, for so many players.
  unfoldable pub announce_players : ℕ → ℕ → Game → Result Game
  unfolding announce_if_changed
  announce_players zero id g = ok g
  announce_players (suc left) id g = announce_if_changed id g >>= announce_players left (id + 1)

  -- It counts from 0 to the number of players.
  unfoldable pub player_packet_factory : Game → Result Game
  unfolding announce_players
  player_packet_factory g = announce_players (length g.players) 0 g

  -- What `switch (actionId)` sets `x` and `y` to.
  unfoldable pub displacement : ℕ → Position
  displacement a =
      if a == 1
      then record { x = neg (lit 20); y = lit 0 }
      else if a == 2
      then record { x = lit 20; y = lit 0 }
      else if a == 3
      then record { x = lit 0; y = neg (lit 20) }
      else if a == 4
      then record { x = lit 0; y = lit 20 }
      else record { x = lit 0; y = lit 0 }

  -- `players[playerId]`: the map, with a default player where there was none.
  abbrev pub player_at : ℕ → Map Player → Player
  player_at id m = elim (Map.find id m) [ none ↦ default_player | some q ↦ q ]

  unfoldable pub handle_player_move : ℕ → ℕ → Game → Result Game
  unfolding get_player_position displacement clamp_position_to_bounds move_player
      player_packet_factory Map.find Map.assign Map.place Map.adjust
  handle_player_move id action g = do
    current ← get_player_position id g
    let by = displacement action
    let next = clamp_position_to_bounds (add current.x by.x) (add current.y by.y)
    q ← move_player (sub next.x current.x) (sub next.y current.y) (player_at id g.players)
    player_packet_factory (record g { players = Map.assign id q g.players })
