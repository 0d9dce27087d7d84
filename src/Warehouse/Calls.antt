-- ===== src/Warehouse/Calls.antt =====
-- Sequences of calls of the methods that change a warehouse, from a new one on.
use multi_robot_fulfillment.Common.{
  ℕ, ◌≡◌, ◌≢◌, inl, inr, true, false, none, some, List, [], ◌∷◌, arith, nat_eq, ok, Option-cases,
}
use multi_robot_fulfillment.Common.Int.{ℤ}
use multi_robot_fulfillment.Common.Dict.{lookup, erase, lookup-insert, lookup-erase_ne}
use multi_robot_fulfillment.Geometry.{Position, position_eq}
use multi_robot_fulfillment.Grid
use multi_robot_fulfillment.Grid.Laws.{contains-set_discard}
use multi_robot_fulfillment.Warehouse
use multi_robot_fulfillment.Warehouse.{Warehouse, Obstacle, LocationType}
use multi_robot_fulfillment.Warehouse.Obstacles.{any_at_of_lookup}
use multi_robot_fulfillment.Warehouse.Blocking.{
  IsBacked, add_static_obstacle_cases, add_dynamic_obstacle_cases, remove_static_obstacle_cases,
  with_static-IsBacked, without_static-IsBacked, with_dynamic-IsBacked, without_dynamic-IsBacked,
  static_inside, add_static_obstacle_accepted, remove_static_obstacle_returns, with_static,
  without_static, static_at,
}

-- A call of a method that changes the warehouse.
pub data Call : Type 0 where
  mark_location : Position → LocationType → Call
  add_static_obstacle add_dynamic_obstacle : ℕ → Position → Call
  remove_static_obstacle remove_dynamic_obstacle : ℕ → Call

-- The warehouse after the call, whether it returned or raised.
abbrev pub after_call : Call → Warehouse → Warehouse
after_call (Call.mark_location p role) w = (Warehouse.mark_location p role w).1
after_call (Call.add_static_obstacle i p) w = (Warehouse.add_static_obstacle i p w).1
after_call (Call.add_dynamic_obstacle i p) w = (Warehouse.add_dynamic_obstacle i p w).1
after_call (Call.remove_static_obstacle i) w = (Warehouse.remove_static_obstacle i w).1
after_call (Call.remove_dynamic_obstacle i) w = (Warehouse.remove_dynamic_obstacle i w).1

abbrev pub after_calls : List Call → Warehouse → Warehouse
after_calls [] w = w
after_calls (c ∷ cs) w = after_calls cs (after_call c w)

mark_location-IsBacked :
    (p : Position) (role : LocationType) (w : Warehouse)
    → IsBacked w
    → IsBacked (Warehouse.mark_location p role w).1
unfolding Warehouse.mark_location Warehouse.is_blocked_by_static Warehouse.in_bounds
    Warehouse.require_in_bounds
mark_location-IsBacked p role w v = ground arith

pub remove_dynamic_obstacle-IsBacked :
    (i : ℕ) (w : Warehouse) → IsBacked w → IsBacked (Warehouse.remove_dynamic_obstacle i w).1
unfolding Warehouse.remove_dynamic_obstacle
remove_dynamic_obstacle-IsBacked i w v = elim (Option-cases (lookup i w.dynamic_obstacles)) [
  | inl absent ↦ rw absent v
  | inr (o, found) ↦ rw found (without_dynamic-IsBacked i o.position w v)
]

add_static_obstacle-IsBacked :
    (i : ℕ) (p : Position) (w : Warehouse)
    → IsBacked w
    → IsBacked (Warehouse.add_static_obstacle i p w).1
add_static_obstacle-IsBacked i p w v = elim (add_static_obstacle_cases i p w) [
  | inl (_, same) ↦ rw same v
  | inr (inside, fresh, fresh', _, done) ↦
      rw done (with_static-IsBacked i p w v inside fresh fresh')
]

pub add_dynamic_obstacle-IsBacked :
    (i : ℕ) (p : Position) (w : Warehouse)
    → IsBacked w
    → IsBacked (Warehouse.add_dynamic_obstacle i p w).1
add_dynamic_obstacle-IsBacked i p w v = elim (add_dynamic_obstacle_cases i p w) [
  | inl (_, same) ↦ rw same v
  | inr (_, fresh, _, _, done) ↦ rw done (with_dynamic-IsBacked i p w v fresh)
]

remove_static_obstacle-IsBacked :
    (i : ℕ) (w : Warehouse) → IsBacked w → IsBacked (Warehouse.remove_static_obstacle i w).1
remove_static_obstacle-IsBacked i w v = elim (remove_static_obstacle_cases i w) [
  | inl (_, same) ↦ rw same v
  | inr (o, found) ↦
      rw (remove_static_obstacle_returns i w o found (static_inside i o.position w v o found))
        (without_static-IsBacked i o.position w v o found)
]

after_call-IsBacked : (c : Call) (w : Warehouse) → IsBacked w → IsBacked (after_call c w)
after_call-IsBacked (Call.mark_location p role) w v = mark_location-IsBacked p role w v
after_call-IsBacked (Call.add_static_obstacle i p) w v = add_static_obstacle-IsBacked i p w v
after_call-IsBacked (Call.add_dynamic_obstacle i p) w v = add_dynamic_obstacle-IsBacked i p w v
after_call-IsBacked (Call.remove_static_obstacle i) w v = remove_static_obstacle-IsBacked i w v
after_call-IsBacked (Call.remove_dynamic_obstacle i) w v = remove_dynamic_obstacle-IsBacked i w v

new-IsBacked : (width height : ℤ) (w : Warehouse) → Warehouse.new width height ≡ ok w → IsBacked w
unfolding Warehouse.new Grid.new Warehouse.is_blocked_by_static
new-IsBacked width height w e = ground arith

-- After any calls from a new warehouse, each blocked cell of the grid is the cell of a registered
-- static obstacle inside the floor, and no identifier is used twice.
pub after_calls-IsBacked :
    (width height : ℤ) (cs : List Call) (w : Warehouse)
    → Warehouse.new width height ≡ ok w
    → IsBacked (after_calls cs w)
after_calls-IsBacked width height cs w e = go cs w (new-IsBacked width height w e)
  where
    go : (cs : List Call) (w : Warehouse) → IsBacked w → IsBacked (after_calls cs w)
    go [] w v = v
    go (c ∷ cs) w v = go cs (after_call c w) (after_call-IsBacked c w v)

-- With two static obstacles on one cell, the removal of one frees the cell in the grid.
removed-uncovers :
    (w : Warehouse) (i j : ℕ) (p : Position)
    → i ≢ j
    → lookup j w.static_obstacles ≡ some (static_at j p)
    → Warehouse.in_bounds w p ≡ true
    → Warehouse.is_blocked_by_dynamic w p ≡ false
    → (Warehouse.is_blocked_by_static (without_static i p w) p ≡ true)
      × (Warehouse.is_traversable (without_static i p w) p ≡ true)
unfolding Warehouse.is_blocked_by_static Warehouse.is_traversable Grid.is_traversable
    Warehouse.in_bounds Warehouse.is_blocked_by_dynamic Grid.in_bounds
removed-uncovers w i j p ne other inside free = (
  ground (
    arith,
    any_at_of_lookup j (static_at j p) (erase i w.static_obstacles),
    lookup-erase_ne i j w.static_obstacles,
  ),
  ground (arith, contains-set_discard p p w.grid.blocked_cells),
)

-- A static obstacle that is entered on the cell of another one is accepted. When the first is
-- removed, the cell still has a static obstacle and counts as traversable.
pub remove_static_obstacle_uncovers :
    (w : Warehouse) (i j : ℕ) (p : Position)
    → i ≢ j
    → Warehouse.in_bounds w p ≡ true
    → lookup i w.static_obstacles ≡ none
    → lookup i w.dynamic_obstacles ≡ none
    → lookup j w.static_obstacles ≡ none
    → lookup j w.dynamic_obstacles ≡ none
    → Warehouse.is_functional (Warehouse.role_at w p) ≡ false
    → Warehouse.is_blocked_by_dynamic w p ≡ false
    → let w₁ = (Warehouse.add_static_obstacle i p w).1 in
      let w₂ = (Warehouse.add_static_obstacle j p w₁).1 in
      let w₃ = (Warehouse.remove_static_obstacle i w₂).1 in
      (Warehouse.is_blocked_by_static w₃ p ≡ true) × (Warehouse.is_traversable w₃ p ≡ true)
unfolding Warehouse.in_bounds Grid.in_bounds Warehouse.is_blocked_by_dynamic
remove_static_obstacle_uncovers w i j p ne inside fi fi' fj fj' role free =
    let w₁ = with_static i p w in
    let w₂ = with_static j p w₁ in
    let first = add_static_obstacle_accepted i p w inside fi fi' role in
    let fresh : lookup j w₁.static_obstacles ≡ none =
      ground (arith, lookup-insert i j (static_at i p) w.static_obstacles) in
    let second = add_static_obstacle_accepted j p w₁ inside fresh fj' role in
    let found : lookup i w₂.static_obstacles ≡ some (static_at i p) = ground (
      arith,
      lookup-insert i i (static_at i p) w.static_obstacles,
      lookup-insert j i (static_at j p) w₁.static_obstacles,
    ) in
    let left : lookup j w₂.static_obstacles ≡ some (static_at j p) =
      ground (arith, lookup-insert j j (static_at j p) w₁.static_obstacles) in
    rw (first, second, remove_static_obstacle_returns i w₂ (static_at i p) found inside)
      (removed-uncovers w₂ i j p ne left inside free)
