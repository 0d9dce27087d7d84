-- ===== src/Warehouse.antt =====
-- `class Warehouse` of robotics/warehouse/warehouse.py, with the obstacles of
-- robotics/warehouse/obstacle.py: the grid, the role of each cell and the obstacles. Identifiers are
-- numbers; names and descriptions, which nothing reads but messages, are left out.
pub mod Neighbors
pub mod Obstacles
pub mod Blocking
pub mod Calls
mod Tests
use multi_robot_fulfillment.Common.{
  ℕ, Bool, true, false, ◌&&◌, ◌||◌, not, Option, none, some, List, [], ◌∷◌, ◌++◌, map, ◌==◌, nat_eq,
  if◌then◌else◌, any, keep_if, contains, Result, ok, err, Error, Action, ◌>>=◌, ◌>>◌, pure, reads,
  gets, or_raise, raise_if, modify,
}
use multi_robot_fulfillment.Common.Int.{ℤ}
use multi_robot_fulfillment.Common.Dict.{Dict, lookup, has_key, insert, erase, values}
use multi_robot_fulfillment.Geometry.{Position, position_eq}
use multi_robot_fulfillment.Grid
use multi_robot_fulfillment.Grid.{Grid}

pub data ObstacleType : Type 0 where
  static dynamic : ObstacleType

pub record Obstacle : Type 0 where
  pub obstacle_id : ℕ
  pub position : Position
  pub obstacle_type : ObstacleType

pub data LocationType : Type 0 where
  aisle storage pickup dropoff charging : LocationType

-- `role in _FUNCTIONAL_LOCATIONS`
abbrev pub is_functional : LocationType → Bool
is_functional LocationType.aisle = false
is_functional _ = true

abbrev pub is_charging : LocationType → Bool
is_charging LocationType.charging = true
is_charging _ = false

pub record Warehouse : Type 0 where
  pub grid : Grid
  pub locations : Dict Position LocationType
  pub static_obstacles : Dict ℕ Obstacle
  pub dynamic_obstacles : Dict ℕ Obstacle

-- `Warehouse(width, height)`
unfoldable pub new : ℤ → ℤ → Result Warehouse
new width height = elim (Grid.new width height) [
  | ok g ↦ ok (record { grid = g; locations = []; static_obstacles = []; dynamic_obstacles = [] })
  | err e ↦ err e
]

unfoldable pub in_bounds : Warehouse → Position → Bool
in_bounds w p = Grid.in_bounds w.grid p

unfoldable pub require_in_bounds : Warehouse → Position → Result (Unit {0})
require_in_bounds w p = if not (in_bounds w p) then err Error.invalid_position else ok tt

unfoldable pub require_unused_obstacle_id : Warehouse → ℕ → Result (Unit {0})
require_unused_obstacle_id w i =
    if has_key i w.static_obstacles || has_key i w.dynamic_obstacles
    then err Error.simulation_error
    else ok tt

-- `any(obstacle.position == position for obstacle in ...values())`
abbrev pub any_at : Position → Dict ℕ Obstacle → Bool
any_at p d = any (λ o. o.position == p) (values d)

unfoldable pub is_blocked_by_static : Warehouse → Position → Bool
is_blocked_by_static w p = any_at p w.static_obstacles

unfoldable pub is_blocked_by_dynamic : Warehouse → Position → Bool
is_blocked_by_dynamic w p = any_at p w.dynamic_obstacles

-- `self._locations.get(position, LocationType.AISLE)`
abbrev pub role_at : Warehouse → Position → LocationType
role_at w p = elim (lookup p w.locations) [ none ↦ LocationType.aisle | some role ↦ role ]

unfoldable pub get_location_type : Warehouse → Position → Result LocationType
get_location_type w p = elim (require_in_bounds w p) [ ok _ ↦ ok (role_at w p) | err e ↦ err e ]

unfoldable pub is_charging_station : Warehouse → Position → Result Bool
is_charging_station w p = elim (get_location_type w p) [
  | ok role ↦ ok (is_charging role)
  | err e ↦ err e
]

abbrev set_role : Position → LocationType → Dict Position LocationType → Dict Position LocationType
set_role p LocationType.aisle d = erase p d
set_role p role d = insert p role d

unfoldable pub mark_location : Position → LocationType → Action Warehouse (Unit {0})
mark_location p role = do
  reads (λ w. require_in_bounds w p)
  w ← gets (λ w. w)
  raise_if (is_functional role && is_blocked_by_static w p) Error.invalid_position
  modify (λ w. record w { locations = set_role p role w.locations })

-- A method of the grid, called on the warehouse's own grid.
abbrev on_grid : {A : Type 0} → Action Grid A → Action Warehouse A
on_grid m w = let (r, g) = m w.grid in (r, record w { grid = g })

unfoldable pub add_static_obstacle : ℕ → Position → Action Warehouse Obstacle
add_static_obstacle i p = do
  reads (λ w. require_in_bounds w p)
  reads (λ w. require_unused_obstacle_id w i)
  role ← reads (λ w. get_location_type w p)
  raise_if (is_functional role) Error.invalid_position
  let o : Obstacle = record { obstacle_id = i; position = p; obstacle_type = ObstacleType.static }
  modify (λ w. record w { static_obstacles = insert i o w.static_obstacles })
  on_grid (Grid.block p)
  pure o

unfoldable pub remove_static_obstacle : ℕ → Action Warehouse Obstacle
remove_static_obstacle i = do
  found ← gets (λ w. lookup i w.static_obstacles)
  o ← or_raise found Error.simulation_error
  modify (λ w. record w { static_obstacles = erase i w.static_obstacles })
  on_grid (Grid.unblock o.position)
  pure o

unfoldable pub add_dynamic_obstacle : ℕ → Position → Action Warehouse Obstacle
add_dynamic_obstacle i p = do
  reads (λ w. require_in_bounds w p)
  reads (λ w. require_unused_obstacle_id w i)
  blocked ← gets (λ w. is_blocked_by_static w p)
  raise_if blocked Error.invalid_position
  let o : Obstacle = record { obstacle_id = i; position = p; obstacle_type = ObstacleType.dynamic }
  modify (λ w. record w { dynamic_obstacles = insert i o w.dynamic_obstacles })
  pure o

unfoldable pub remove_dynamic_obstacle : ℕ → Action Warehouse Obstacle
remove_dynamic_obstacle i = do
  found ← gets (λ w. lookup i w.dynamic_obstacles)
  o ← or_raise found Error.simulation_error
  modify (λ w. record w { dynamic_obstacles = erase i w.dynamic_obstacles })
  pure o

abbrev first_at : Position → List Obstacle → Option Obstacle
first_at p [] = none
first_at p (o ∷ os) = if o.position == p then some o else first_at p os

-- Static obstacles first.
unfoldable pub obstacle_at : Warehouse → Position → Option Obstacle
obstacle_at w p = elim (first_at p (values w.static_obstacles)) [
  | some o ↦ some o
  | none ↦ first_at p (values w.dynamic_obstacles)
]

unfoldable pub is_traversable : Warehouse → Position → Bool
is_traversable w p = Grid.is_traversable w.grid p && not (is_blocked_by_dynamic w p)

unfoldable pub neighbors : Warehouse → Position → Result (List Position)
neighbors w p = elim (require_in_bounds w p) [
  | err e ↦ err e
  | ok _ ↦ elim (Grid.neighbors w.grid p) [
    | err e ↦ err e
    | ok cells ↦ ok (keep_if (λ c. not (is_blocked_by_dynamic w c)) cells)
  ]
]

unfoldable pub blocked_cells : Warehouse → List Position
blocked_cells w =
    w.grid.blocked_cells ++ map (λ (o : Obstacle). o.position) (values w.dynamic_obstacles)
