-- ===== src/Warehouse/Blocking.antt =====
-- The two records of a static obstacle, the registry of the warehouse and the blocked set of the
-- grid, under the methods that change them.
use multi_robot_fulfillment.Common.{
  ℕ, ◌≡◌, ◌≢◌, ◌⊎◌, inl, inr, true, false, none, some, arith, nat_eq, contains, IsErr, ok, err,
  Error, Option-cases, Eq-cases,
}
use multi_robot_fulfillment.Common.Dict.{
  lookup, insert, erase, IsDict, insert-IsDict, erase-IsDict, lookup-insert, lookup-erase_ne,
  lookup-erase_self, lookup-erase-none,
}
use multi_robot_fulfillment.Geometry.{Position, position_eq}
use multi_robot_fulfillment.Grid
use multi_robot_fulfillment.Grid.Laws.{contains-set_add, contains-set_discard}
use multi_robot_fulfillment.Warehouse.{
  Warehouse, Obstacle, ObstacleType, role_at, in_bounds, require_in_bounds,
  require_unused_obstacle_id, get_location_type, is_blocked_by_static, add_static_obstacle,
  remove_static_obstacle, add_dynamic_obstacle, is_functional,
}
use multi_robot_fulfillment.Warehouse.Obstacles.{
  any_at-insert_new, any_at-erase, any_at-erase_le, any_at_of_lookup,
}

-- Every blocked cell of the grid is the cell of a registered static obstacle, and an identifier
-- stands in one registry, once.
pub record IsBacked (w : Warehouse) : Type 0 where
  pub static_ids : IsDict w.static_obstacles
  pub dynamic_ids : IsDict w.dynamic_obstacles
  pub apart : (i : ℕ) → lookup i w.static_obstacles ≢ none → lookup i w.dynamic_obstacles ≡ none
  pub backed :
      (p : Position) → contains w.grid.blocked_cells p ≡ true → is_blocked_by_static w p ≡ true
  pub floored : (p : Position) → is_blocked_by_static w p ≡ true → in_bounds w p ≡ true

abbrev pub static_at : ℕ → Position → Obstacle
static_at i p = record { obstacle_id = i; position = p; obstacle_type = ObstacleType.static }

abbrev pub dynamic_at : ℕ → Position → Obstacle
dynamic_at i p = record { obstacle_id = i; position = p; obstacle_type = ObstacleType.dynamic }

abbrev pub with_static : ℕ → Position → Warehouse → Warehouse
with_static i p w = record w {
  grid = record (w.grid) { blocked_cells = Grid.set_add p w.grid.blocked_cells };
  static_obstacles = insert i (static_at i p) w.static_obstacles;
}

abbrev pub without_static : ℕ → Position → Warehouse → Warehouse
without_static i p w = record w {
  grid = record (w.grid) { blocked_cells = Grid.set_discard p w.grid.blocked_cells };
  static_obstacles = erase i w.static_obstacles;
}

module _ (i : ℕ) (p : Position) (w : Warehouse) where
  -- A static obstacle is refused with no change, or entered in both records.
  pub add_static_obstacle_cases :
      IsErr (add_static_obstacle i p w).0 × ((add_static_obstacle i p w).1 ≡ w)
      ⊎ (in_bounds w p ≡ true)
        × (lookup i w.static_obstacles ≡ none)
        × (lookup i w.dynamic_obstacles ≡ none)
        × (is_functional (role_at w p) ≡ false)
        × (add_static_obstacle i p w ≡ (ok (static_at i p), with_static i p w))
  unfolding add_static_obstacle require_in_bounds in_bounds require_unused_obstacle_id Grid.block
      Grid.require_in_bounds get_location_type
  add_static_obstacle_cases = ground arith

  pub add_static_obstacle_accepted :
      in_bounds w p ≡ true
      → lookup i w.static_obstacles ≡ none
      → lookup i w.dynamic_obstacles ≡ none
      → is_functional (role_at w p) ≡ false
      → add_static_obstacle i p w ≡ (ok (static_at i p), with_static i p w)
  unfolding add_static_obstacle require_in_bounds in_bounds require_unused_obstacle_id Grid.block
      Grid.require_in_bounds get_location_type
  add_static_obstacle_accepted inside fresh fresh' role = ground arith

  pub add_dynamic_obstacle_cases :
      IsErr (add_dynamic_obstacle i p w).0 × ((add_dynamic_obstacle i p w).1 ≡ w)
      ⊎ (in_bounds w p ≡ true)
        × (lookup i w.static_obstacles ≡ none)
        × (lookup i w.dynamic_obstacles ≡ none)
        × (is_blocked_by_static w p ≡ false)
        × (add_dynamic_obstacle i p w ≡ (
          ok (dynamic_at i p),
          record w { dynamic_obstacles = insert i (dynamic_at i p) w.dynamic_obstacles },
        ))
  unfolding add_dynamic_obstacle require_in_bounds in_bounds require_unused_obstacle_id
  add_dynamic_obstacle_cases = ground arith

module _ (i : ℕ) (w : Warehouse) where
  pub remove_static_obstacle_returns :
      (o : Obstacle)
      → lookup i w.static_obstacles ≡ some o
      → in_bounds w o.position ≡ true
      → remove_static_obstacle i w ≡ (ok o, without_static i o.position w)
  unfolding remove_static_obstacle in_bounds Grid.unblock Grid.require_in_bounds
  remove_static_obstacle_returns o found inside = ground arith

  pub remove_static_obstacle_cases :
      (lookup i w.static_obstacles ≡ none)
        × (remove_static_obstacle i w ≡ (err Error.simulation_error, w))
      ⊎ ((o : Obstacle) × (lookup i w.static_obstacles ≡ some o))
  unfolding remove_static_obstacle
  remove_static_obstacle_cases = elim (Option-cases (lookup i w.static_obstacles)) [
    | inl absent ↦ inl (absent, ground arith)
    | inr known ↦ inr known
  ]

module _ (i : ℕ) (p : Position) (w : Warehouse) (v : IsBacked w) where
  pub with_static-IsBacked :
      in_bounds w p ≡ true
      → lookup i w.static_obstacles ≡ none
      → lookup i w.dynamic_obstacles ≡ none
      → IsBacked (with_static i p w)
  unfolding is_blocked_by_static in_bounds Grid.in_bounds
  with_static-IsBacked inside fresh fresh' = record {
    static_ids = insert-IsDict i (static_at i p) w.static_obstacles v.static_ids;
    dynamic_ids = v.dynamic_ids;
    apart = λ j h. ground (arith, lookup-insert i j (static_at i p) w.static_obstacles, v.apart j);
    backed = λ q h. ground (
      arith,
      contains-set_add p q w.grid.blocked_cells,
      any_at-insert_new q i (static_at i p) w.static_obstacles fresh,
      v.backed q,
    );
    floored = λ q h. elim ((any_at-insert_new q i (static_at i p) w.static_obstacles fresh).0 h) [
      | inl old ↦ v.floored q old
      | inr e ↦ rw (← e) inside
    ];
  }

  pub without_static-IsBacked :
      (o : Obstacle)
      → lookup i w.static_obstacles ≡ some o
      → IsBacked (without_static i o.position w)
  unfolding is_blocked_by_static in_bounds Grid.in_bounds
  without_static-IsBacked o found = record {
    static_ids = erase-IsDict i w.static_obstacles v.static_ids;
    dynamic_ids = v.dynamic_ids;
    apart = λ j h. elim (Eq-cases j i) [
      | inl (e, _) ↦ ground (arith, lookup-erase_self i w.static_obstacles v.static_ids)
      | inr (ne, _) ↦ ground (arith, lookup-erase_ne i j w.static_obstacles ne, v.apart j)
    ];
    backed = λ q h. ground (
      arith,
      contains-set_discard o.position q w.grid.blocked_cells,
      any_at-erase q i o w.static_obstacles found,
      v.backed q,
    );
    floored = λ q h. v.floored q (any_at-erase_le q i w.static_obstacles h);
  }

  pub with_dynamic-IsBacked :
      lookup i w.static_obstacles ≡ none
      → IsBacked (record w { dynamic_obstacles = insert i (dynamic_at i p) w.dynamic_obstacles })
  unfolding is_blocked_by_static in_bounds
  with_dynamic-IsBacked fresh = record {
    static_ids = v.static_ids;
    dynamic_ids = insert-IsDict i (dynamic_at i p) w.dynamic_obstacles v.dynamic_ids;
    apart =
        λ j h. ground (arith, lookup-insert i j (dynamic_at i p) w.dynamic_obstacles, v.apart j);
    backed = v.backed;
    floored = v.floored;
  }

  pub without_dynamic-IsBacked :
      IsBacked (record w { dynamic_obstacles = erase i w.dynamic_obstacles })
  unfolding is_blocked_by_static in_bounds
  without_dynamic-IsBacked = record {
    static_ids = v.static_ids;
    dynamic_ids = erase-IsDict i w.dynamic_obstacles v.dynamic_ids;
    apart = λ j h. lookup-erase-none i j w.dynamic_obstacles (v.apart j h);
    backed = v.backed;
    floored = v.floored;
  }

  -- A registered static obstacle stands inside the floor.
  pub static_inside :
      (o : Obstacle) → lookup i w.static_obstacles ≡ some o → in_bounds w o.position ≡ true
  unfolding is_blocked_by_static
  static_inside o found = v.floored o.position (any_at_of_lookup i o w.static_obstacles found)
