-- ===== src/Conflicts/Raises.antt =====
-- Where the validator of robotics/coordination/conflicts.py raises in place of an answer.
use multi_robot_fulfillment.Common.{
  ℕ, ◌≡◌, refl, Bool, true, Option, none, [], ◌∷◌, arith, ok, err, Error,
}
use multi_robot_fulfillment.Common.Dict.{Dict}
use multi_robot_fulfillment.Geometry.{Position}
use multi_robot_fulfillment.Warehouse.{Warehouse}
use multi_robot_fulfillment.Coordination.{TimedPath, position_at}
use multi_robot_fulfillment.Coordinator.{start_time, arrival_time}
use multi_robot_fulfillment.Conflicts.{
  seen_problems, vertex_problems, swap_problems, goal_problems, cross_problems, problems_of,
  find_coordination_problems,
}

nowhere : (p : TimedPath) (t : ℕ) → p.steps ≡ [] → position_at p t ≡ ok none
unfolding position_at
nowhere p t h = rw h refl

-- The validator raises IndexError for a single path that claims success and has no steps, in place of
-- the problem that it has for such a path, whatever the floor and the expected starts are.
pub find_coordination_problems_raises :
    (p : TimedPath) (w : Warehouse) (expected_starts : Option (Dict ℕ Position)) (check : Bool)
    → p.success ≡ true
    → p.steps ≡ []
    → find_coordination_problems (p ∷ []) w expected_starts check ≡ err Error.index_error
unfolding find_coordination_problems problems_of cross_problems vertex_problems swap_problems
    seen_problems goal_problems start_time arrival_time
find_coordination_problems_raises p w expected_starts check success empty =
    ground (arith, nowhere p 0 empty)
