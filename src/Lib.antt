-- ===== src/Lib.antt =====
-- A warehouse fleet: robots carry parcels over a grid of cells, planners find their routes, and a
-- simulator keeps the robots, the tasks and the obstacles together. This library models the core of
-- the Python package `robotics`.
--
-- The parts, and the code each one models:
--   Geometry    Position and Direction of robotics/warehouse/grid.py, robotics/planning/heuristics.py
--   Grid        class Grid of robotics/warehouse/grid.py
--   Warehouse   class Warehouse of robotics/warehouse/warehouse.py over a Grid, with obstacle.py
--   Search      the loop over a priority queue that astar.py and dijkstra.py of robotics/planning
--               share, and reconstruct_path of path_result.py
--   Planning    the functions `plan` of astar.py and dijkstra.py, path_result.py and validation.py
--   Robot       robotics/robots/robot.py and robot_state.py
--   Task        robotics/tasks/task.py
--   Simulator   class WarehouseSimulator of robotics/simulation/simulator.py over all of these
--   Coordination  robotics/coordination/reservation_table.py, and the data of timed_path.py with
--               position_at
--   SpaceTime   robotics/coordination/space_time_planner.py on the loop of Search
--   Coordinator robotics/coordination/coordinator.py and coordination_result.py, over SpaceTime and
--               Coordination, with the counts of timed_path.py
--   Conflicts   robotics/coordination/conflicts.py, the check of timed paths
--   Execution   robotics/execution/route_executor.py and execution_result.py, over Simulator
--   Allocation  robotics/allocation/allocation_result.py and commit.py over Simulator, with the
--               children Cost, Feasible and Greedy for cost_estimator.py, feasibility.py and
--               greedy_allocator.py
-- Common holds what they share: native numbers, signed integers, floats, dicts as association lists, error
-- values, and methods as functions from a state to an outcome and the next state. A method that
-- raises keeps what it wrote before. Operations have the names of the Python methods, without
-- leading underscores; `__post_init__` is `post_init` and a constructor is `new`. The children of a
-- module hold its theorems, and those named Tests its runs on concrete data.
--
-- Interaction: the planners read a warehouse through `neighbors` and `is_traversable`. The
-- simulator owns one warehouse and the registries of robots and tasks; its methods call those of
-- the warehouse, of a robot and of a task, and write the object back under its identifier. The
-- coordinator asks the space-time planner for one robot after another, and enters each path in the
-- reservation table before it asks for the next. The route executor takes a planner's result and
-- calls `move_robot` cell by cell. The greedy allocator prices pairs through a planner, and the
-- commit gives its plan to `assign_task_manually`.
--
-- Choices. Costs are numbers of moves, since MOVE_COST is 1. Charge, weight and drain are floats:
-- whole multiples of 2 ^ -1074, whose sums, differences and quotients are rounded to 53 binary
-- digits, to nearest with ties to even. Infinities, NaN and overflow are not modelled; odometers,
-- which count whole moves, are natural numbers. Identifiers are numbers, with 0 for the empty
-- string, and where the code sorts by them numbers stand in the order of the strings. Messages are
-- left out or are values of a data type. A heuristic returns a natural number. A queue is a list
-- from which the smallest entry is taken; insertion orders are all different, so the order in the
-- list does not matter. A dynamic obstacle is a registry entry alone, as in the code.
--
-- Fuel: the loop of a planner runs on `loop_fuel`, four times the number of cells and one, because
-- each cell is expanded once and adds at most four entries; the walk back from the goal runs on the
-- goal's cost, because each link lowers the cost by one. The space-time planner runs on
-- `search_fuel`: its states are the cells at the timesteps up to the horizon, and each adds at most
-- five entries. That both are enough is part of the theorems on the planners, which state that a
-- result is returned. The rounding of a float cuts off one digit in each of 3200 steps, and no
-- exact sum or quotient of floats has more than 3172 digits in its unit.
--
-- Not modelled: planning times, printed forms and snapshots; the coordinated executor, the CP-SAT
-- allocator and the validator of allocations, recovery and retry; the services, the web API, the
-- database and the frontend.
pub mod Common
pub mod Geometry
pub mod Grid
pub mod Warehouse
pub mod Search
pub mod Planning
pub mod Robot
pub mod Task
pub mod Simulator
pub mod Coordination
pub mod SpaceTime
pub mod Coordinator
pub mod Conflicts
pub mod Execution
pub mod Allocation
