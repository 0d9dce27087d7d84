-- ===== src/SpaceTime/Tests.antt =====
-- A corridor of three cells with a bay: robot 2 waits in the bay while robot 1 passes.
use multi_robot_fulfillment.Common.{
  ℕ, ◌≡◌, ◌⊎◌, inl, inr, refl, false, none, some, [], ◌∷◌, ok, arith, ap, Eq-cases,
}
use multi_robot_fulfillment.Common.Int.{pos}
use multi_robot_fulfillment.Geometry
use multi_robot_fulfillment.Geometry.{Position, manhattan_distance}
use multi_robot_fulfillment.Warehouse.{Warehouse}
use multi_robot_fulfillment.Coordination.{
  TimedPath, EdgeKey, edge_eq, ReservationTable, empty_table, reserve_timed_path,
}
use multi_robot_fulfillment.Coordination.Vertices.{holder}
use multi_robot_fulfillment.Coordination.Claims.{IsGuarded, Grants}
use multi_robot_fulfillment.Coordination.Accepted.{HasPath}
use multi_robot_fulfillment.SpaceTime.{SpaceTimePlanner, plan}
use multi_robot_fulfillment.SpaceTime.Answers.{Outcome}
use multi_robot_fulfillment.SpaceTime.Plans.{plan-Outcome}
use multi_robot_fulfillment.SpaceTime.Reservable.{plan-reserve_timed_path}

abbrev cell : ℕ → ℕ → Position
cell r c = record { row = pos r; col = pos c }

abbrev floor : Warehouse
floor = record {
  grid = record { width = pos 3; height = pos 2; blocked_cells = cell 1 0 ∷ cell 1 2 ∷ [] };
  locations = [];
  static_obstacles = [];
  dynamic_obstacles = [];
}

abbrev planner : SpaceTimePlanner
planner = record { warehouse = floor; heuristic = manhattan_distance }

abbrev edge : Position → Position → ℕ → EdgeKey
edge p q i = record { from_cell = p; to_cell = q; timestep = i }

abbrev claimed : ReservationTable
claimed = record empty_table {
  vertices = (record { cell = cell 0 1; timestep = 1 }, 1) ∷ [];
  edges = (record { from_cell = cell 0 1; to_cell = cell 0 2; timestep = 1 }, 1) ∷ [];
}

holds : holder (cell 0 1) 1 claimed ≡ some 1
unfolding Geometry.position_beq
holds = refl

claimed-IsGuarded : IsGuarded claimed
claimed-IsGuarded = record {
  guarded = λ p q i o h. elim (Eq-cases (edge p q i) (edge (cell 0 1) (cell 0 2) 1)) [
    | inl (same, _) ↦
        let from : p ≡ cell 0 1 = ap (λ (e : EdgeKey). e.from_cell) same in
        let time : i ≡ 1 = ap (λ (e : EdgeKey). e.timestep) same in
        let owner : 1 ≡ o = ground (arith, same) in rw (from, time, ← owner) holds
    | inr (_, test) ↦ absurd (ground arith)
  ];
}

plan-Outcome_example :
    (p : TimedPath) × (plan planner (cell 0 0) (cell 0 2) claimed 2 0 none ≡ ok p)
    × Outcome planner (cell 0 0) (cell 0 2) claimed 2 0 20 p
plan-Outcome_example = plan-Outcome planner (cell 0 0) (cell 0 2) claimed 2 0 none

plan-reserve_timed_path_example :
    (p : TimedPath) × (plan planner (cell 0 0) (cell 0 2) claimed 2 0 (some 9) ≡ ok p)
    × let (answer, table') = reserve_timed_path p 9 claimed in
      ((p.success ≡ false)
        ⊎ (answer ≡ ok tt) × IsGuarded table' × HasPath p 9 table' × Grants 2 claimed table')
plan-reserve_timed_path_example =
    plan-reserve_timed_path planner (cell 0 0) (cell 0 2) claimed 2 0 9 claimed-IsGuarded
