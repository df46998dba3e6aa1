-- ===== src/Ecs/Registry.antt =====
-- `Registry` of ECS/Registry.hpp. A component's type index is a `Kind`; the map from type indices to
-- `std::any` has one place for each kind, empty until the kind is registered, and so an `any_cast`
-- meets the type that it asks for. `systems` is the argument of `run_systems`.
pub mod Killing
pub mod Lifetime
pub mod Registration
pub mod Storage
use bee_r_type.Prelude.{
  ℕ, zero, suc, ◌+◌, ◌%◌, ◌^◌, Bool, true, false, not, ◌&&◌, Option, none, some, List, [], ◌∷◌,
  ◌++◌, ltb, ◌==◌, if◌then◌else◌, Result, ok, thrown, out_of_range, ◌>>=◌, ◌≡◌,
}
use bee_r_type.Platform.{Platform}
use bee_r_type.Ecs.SparseArray
use bee_r_type.Ecs.SparseArray.{SparseArray}
use bee_r_type.Ecs.Components.{Position, Velocity, Drawable, Controllable, Collidable, Projectile}

pub data Kind : Type 0 where
  position velocity drawable controllable collidable projectile : Kind

-- `std::find(begin, end, e) != end`.
abbrev pub is_among : ℕ → List ℕ → Bool
is_among e [] = false
is_among e (d ∷ ds) = if d == e then true else is_among e ds

unfoldable pub entity_from_index : ℕ → ℕ
entity_from_index idx = idx

module _ ⦃p : Platform⦄ where
  abbrev pub Component : Kind → Type 0
  Component position = Position
  Component velocity = Velocity
  Component drawable = Drawable
  Component controllable = Controllable
  Component collidable = Collidable
  Component projectile = Projectile

  pub record Arrays : Type 0 where
    pub positions : Option (SparseArray Position)
    pub velocities : Option (SparseArray Velocity)
    pub drawables : Option (SparseArray Drawable)
    pub controllables : Option (SparseArray Controllable)
    pub collidables : Option (SparseArray Collidable)
    pub projectiles : Option (SparseArray Projectile)

  -- `_componentArrays.find(typeIndex)`.
  abbrev pub find_array : (k : Kind) → Arrays → Option (SparseArray (Component k))
  find_array position a = a.positions
  find_array velocity a = a.velocities
  find_array drawable a = a.drawables
  find_array controllable a = a.controllables
  find_array collidable a = a.collidables
  find_array projectile a = a.projectiles

  -- `_componentArrays[typeIndex] = …`.
  abbrev pub put_array : (k : Kind) → SparseArray (Component k) → Arrays → Arrays
  put_array position xs a = record a { positions = some xs }
  put_array velocity xs a = record a { velocities = some xs }
  put_array drawable xs a = record a { drawables = some xs }
  put_array controllable xs a = record a { controllables = some xs }
  put_array collidable xs a = record a { collidables = some xs }
  put_array projectile xs a = record a { projectiles = some xs }

  -- The head of `dead_entities` is the back of the vector. An erase function is told by its kind.
  pub record Registry : Type 0 where
    pub next_entity : ℕ
    pub dead_entities : List ℕ
    pub arrays : Arrays
    pub erase_functions : List Kind

  abbrev pub empty_registry : Registry
  empty_registry = record {
    next_entity = 0;
    dead_entities = [];
    arrays = record {
      positions = none;
      velocities = none;
      drawables = none;
      controllables = none;
      collidables = none;
      projectiles = none;
    };
    erase_functions = [];
  }

  -- `nextEntity++` on `std::size_t`, or the entity that died last.
  spawn_from : List ℕ → Registry → Registry × ℕ
  spawn_from [] r = (record r { next_entity = (r.next_entity + 1) % 2 ^ 64 }, r.next_entity)
  spawn_from (e ∷ es) r = (record r { dead_entities = es }, e)

  unfoldable pub spawn_entity : Registry → Registry × ℕ
  unfolding spawn_from
  spawn_entity r = spawn_from r.dead_entities r

  unfoldable pub get_components : (k : Kind) → Registry → Result (SparseArray (Component k))
  get_components k r = elim (find_array k r.arrays) [ none ↦ thrown out_of_range | some xs ↦ ok xs ]

  unfoldable pub remove_component : Kind → ℕ → Registry → Result Registry
  unfolding get_components
  remove_component k from r = do
    xs ← get_components k r
    ok (record r { arrays = put_array k (SparseArray.erase from xs) r.arrays })

  -- `for (auto& func : eraseFunctions) func(*this, e);`
  unfoldable pub erase_all : List Kind → ℕ → Registry → Result Registry
  unfolding remove_component
  erase_all [] e r = ok r
  erase_all (k ∷ ks) e r = remove_component k e r >>= erase_all ks e

  unfoldable pub kill_entity : ℕ → Registry → Result Registry
  unfolding erase_all
  kill_entity e r = do
    r' ← erase_all r.erase_functions e r
    ok (record r' { dead_entities = e ∷ r'.dead_entities })

  unfoldable pub register_component : Kind → Registry → Registry
  register_component k r = elim (find_array k r.arrays) [
    | none ↦ record r {
      arrays = put_array k [] r.arrays;
      erase_functions = r.erase_functions ++ k ∷ [];
    }
    | some xs ↦ r
  ]

  unfoldable pub entity_exists : ℕ → Registry → Bool
  entity_exists e r = ltb e r.next_entity && not (is_among e r.dead_entities)

  unfoldable pub add_component : (k : Kind) → ℕ → Component k → Registry → Result Registry
  unfolding entity_exists get_components
  add_component k to c r =
      if not (entity_exists to r)
      then thrown out_of_range
      else (get_components k r >>= λ xs.
          ok (record r { arrays = put_array k (SparseArray.insert_at to c xs) r.arrays }))

  unfoldable pub emplace_component {κ} :
      {Params : Type κ} (k : Kind)
      → (Params → Component k)
      → ℕ
      → Params
      → Registry
      → Result Registry
  unfolding entity_exists get_components
  emplace_component k build to params r =
      if not (entity_exists to r)
      then thrown out_of_range
      else (get_components k r >>= λ xs.
          ok (record r {
            arrays = put_array k (SparseArray.emplace_at build to params xs) r.arrays;
          }))

  unfoldable pub has_component : Kind → ℕ → Registry → Bool
  unfolding entity_exists
  has_component k e r =
      if not (entity_exists e r)
      then false
      else elim (find_array k r.arrays) [ none ↦ false | some xs ↦ SparseArray.contains e xs ]

  abbrev pub System : Type 0
  System = Registry → Result Registry

  -- The lookups of `get_components<Components>()...`.
  unfoldable pub look_up : List Kind → Registry → Result Registry
  unfolding get_components
  look_up [] r = ok r
  look_up (k ∷ ks) r = get_components k r >>= λ xs. look_up ks r

  -- The list `systems` with one more: a function that is called with the registry and its arrays.
  unfoldable pub add_system : List Kind → System → List System → List System
  unfolding look_up
  add_system components f systems = systems ++ (λ r. look_up components r >>= f) ∷ []

  -- `for (auto& system : systems) system();`
  unfoldable pub run_systems : List System → Registry → Result Registry
  run_systems [] r = ok r
  run_systems (f ∷ fs) r = f r >>= run_systems fs
