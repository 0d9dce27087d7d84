-- ===== src/Allocation/Cost.antt =====
-- The prices of pairs of a robot and a task: robotics/allocation/cost_estimator.py. The planner is the
-- function that the estimator is built with.
use multi_robot_fulfillment.Common.{
  ℕ, ◌+◌, ◌≡◌, ◌↔◌, Bool, true, false, ◌&&◌, Option, none, some, [], ◌==◌, Eq, arith, Result, ok,
  err, Error, Action, ◌>>=◌, pure, length,
}
use multi_robot_fulfillment.Common.Int.{ℤ, ◌+ℤ◌}
use multi_robot_fulfillment.Common.Dict.{Dict, lookup, insert}
use multi_robot_fulfillment.Geometry.{Position, position_eq, position_beq_iff}
use multi_robot_fulfillment.Warehouse.{Warehouse}
use multi_robot_fulfillment.Robot.{Robot}
use multi_robot_fulfillment.Task.{Task}
use multi_robot_fulfillment.Planning.{PathResult}

abbrev pub Planner : Type 0
Planner = Position → Position → Warehouse → Result PathResult

pub record AssignmentCost : Type 0 where
  pub robot_to_pickup : ℤ
  pub pickup_to_dropoff : ℤ

unfoldable pub total : AssignmentCost → ℤ
total cost = cost.robot_to_pickup +ℤ cost.pickup_to_dropoff

-- The keys `(start, goal)`.
pub record Leg : Type 0 where
  pub start : Position
  pub goal : Position

abbrev pub leg_beq : Leg → Leg → Bool
leg_beq a b = a.start == b.start && a.goal == b.goal

pub leg_beq_iff : (a b : Leg) → (leg_beq a b ≡ true) ↔ (a ≡ b)
leg_beq_iff a b = ground (arith, position_beq_iff a.start b.start, position_beq_iff a.goal b.goal)

instance abbrev pub leg_eq : Eq Leg
leg_eq = record { beq = leg_beq; beq_iff = leg_beq_iff }

abbrev pub leg : Position → Position → Leg
leg start goal = record { start = start; goal = goal }

pub record CostEstimator : Type 0 where
  pub warehouse : Warehouse
  pub planner : Planner
  pub cache : Dict Leg (Option ℤ)
  pub planner_calls : ℕ

unfoldable pub new : Warehouse → Planner → CostEstimator
new w planner = record { warehouse = w; planner = planner; cache = []; planner_calls = 0 }

abbrev pub cache_size : CostEstimator → ℕ
cache_size e = length e.cache

-- `int(result.total_cost) if result.success else None`
unfoldable pub cost_of : PathResult → Result (Option ℤ)
cost_of result = elim result.success [
  | true ↦ elim result.total_cost [ some cost ↦ ok (some cost) | none ↦ err Error.type_error ]
  | false ↦ ok none
]

-- What is stored for a leg; nothing is stored when an exception is raised.
unfoldable pub store : Leg → Result (Option ℤ) → Action CostEstimator (Option ℤ)
store key (ok cost) e = (ok cost, record e { cache = insert key cost e.cache })
store key (err x) e = (err x, e)

abbrev pub planned_cost : Planner → Warehouse → Position → Position → Result (Option ℤ)
planned_cost planner w start goal = elim (planner start goal w) [
  | ok result ↦ cost_of result
  | err x ↦ err x
]

unfoldable pub path_cost : Position → Position → Action CostEstimator (Option ℤ)
path_cost start goal e =
    let key = leg start goal in
    elim (lookup key e.cache) [
      | some cost ↦ (ok cost, e)
      | none ↦
          store key (planned_cost e.planner e.warehouse start goal)
            (record e { planner_calls = e.planner_calls + 1 })
    ]

abbrev pub second_leg : ℤ → Option ℤ → Option AssignmentCost
second_leg to_pickup none = none
second_leg to_pickup (some to_dropoff) =
    some (record { robot_to_pickup = to_pickup; pickup_to_dropoff = to_dropoff })

-- What follows the price of the first leg.
abbrev pub price_second : Task → Option ℤ → Action CostEstimator (Option AssignmentCost)
price_second task none = pure none
price_second task (some cost) = do
  to_dropoff ← path_cost task.pickup_location task.dropoff_location
  pure (second_leg cost to_dropoff)

unfoldable pub estimate : Robot → Task → Action CostEstimator (Option AssignmentCost)
estimate robot task = do
  to_pickup ← path_cost robot.position task.pickup_location
  price_second task to_pickup
