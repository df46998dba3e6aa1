-- ===== src/Game/State.antt =====
-- The members of `AGame` and `Game`, the static variables of their functions, and the server that both
-- point to. Identifiers and counters of type `int` start from 0 and only grow, so they are numbers
-- here; `int` would overflow after 2 ^ 31 of them.
use bee_r_type.Prelude.{ℕ, ◌-◌, ◌/◌, Bool, false, Option, none, some, List, [], ◌∷◌, ◌++◌, codes}
use bee_r_type.Prelude.Map.{Map}
use bee_r_type.Prelude.Int.{ℤ}
use bee_r_type.Prelude.Decimal.{Bytes, to_string}
use bee_r_type.Platform.{Platform}
use bee_r_type.Ecs.Components.{Position}
use bee_r_type.Ecs.Registry.{
  Registry, empty_registry, register_component, position, velocity, drawable, controllable,
  collidable, projectile,
}
use bee_r_type.Server.{Server}
use bee_r_type.Entities.{Player, Bullet, Enemy, Boss}

-- `PlayerAction` of GameEngine/src/PlayerAction.cpp, and its constructor.
pub record PlayerAction : Type 0 where
  pub player_id : ℕ
  pub action_id : ℕ
  pub processed : Bool

unfoldable pub new_action : ℕ → ℕ → PlayerAction
new_action player_id action_id = record {
  player_id = player_id;
  action_id = action_id;
  processed = false;
}

unfoldable pub set_processed : Bool → PlayerAction → PlayerAction
set_processed value a = record a { processed = value }

unfoldable pub set_id : ℕ → PlayerAction → PlayerAction
set_id player_id a = record a { player_id = player_id }

unfoldable pub set_action_id : ℕ → PlayerAction → PlayerAction
set_action_id action_id a = record a { action_id = action_id }

module _ ⦃p : Platform⦄ where
  -- The last seven fields but one are the static variables; a time is in nanoseconds of the steady
  -- clock, and is missing until the function's first call sets it. `rng` counts the random draws.
  pub record Game : Type 0 where
    pub player_actions : List PlayerAction
    pub players : Map Player
    pub bullets : Map Bullet
    pub bullet_shooters : Map ℕ
    pub registry : Registry
    pub server : Server
    pub enemies : Map Enemy
    pub bosses : Map Boss
    pub rng : ℕ
    pub enemies_per_wave : ℕ
    pub enemy_id : ℕ
    pub boss_id : ℕ
    pub total_players : ℤ
    pub dead_players : List ℕ
    pub dead_enemies : List ℕ
    pub dead_bullets : List ℕ
    pub dead_bosses : List ℕ
    pub current_wave : ℕ
    pub next_bullet_id : ℕ
    pub last_known_positions : Map Position
    pub last_wave_time : Option ℕ
    pub last_ui_time : Option ℕ
    pub last_bullets_time : Option ℕ
    pub last_enemies_time : Option ℕ

  -- `registerComponents`.
  unfoldable pub register_components : Registry → Registry
  register_components r = register_component projectile (
      register_component collidable (
        register_component controllable (
          register_component drawable
            (register_component velocity (register_component position r)))))

  -- The constructors of `AGame` and `Game`; `unset` is what `totalPlayers` happens to hold.
  unfoldable pub new_game : Server → ℤ → Game
  unfolding register_components
  new_game server unset = record {
    player_actions = [];
    players = [];
    bullets = [];
    bullet_shooters = [];
    registry = register_components empty_registry;
    server = server;
    enemies = [];
    bosses = [];
    rng = 0;
    enemies_per_wave = 5;
    enemy_id = 0;
    boss_id = 0;
    total_players = unset;
    dead_players = [];
    dead_enemies = [];
    dead_bullets = [];
    dead_bosses = [];
    current_wave = 0;
    next_bullet_id = 0;
    last_known_positions = [];
    last_wave_time = none;
    last_ui_time = none;
    last_bullets_time = none;
    last_enemies_time = none;
  }

-- The time since the last event, in units of so many nanoseconds, rounded down. In its first call a
-- function sets the static variable to the time of that call.
abbrev pub elapsed : ℕ → Option ℕ → ℕ → ℕ
elapsed unit none now = 0
elapsed unit (some last) now = (now - last) / unit

abbrev pub started : Option ℕ → ℕ → Option ℕ
started none now = some now
started (some last) now = some last

abbrev pub second : ℕ
second = 1_000_000_000

abbrev pub millisecond : ℕ
millisecond = 1_000_000

-- `std::to_string(id) + ";" + a + ";" + b + rest`.
abbrev pub entity_data : ℕ → Bytes → Bytes → Bytes → Bytes
entity_data id a b rest = to_string id ++ (b';' ∷ (a ++ (b';' ∷ (b ++ rest))))

-- `std::to_string(id) + ";0;0;0;0"`.
abbrev pub destroy_data : ℕ → Bytes
destroy_data id = to_string id ++ codes ";0;0;0;0"
