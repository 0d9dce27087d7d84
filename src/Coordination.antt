-- ===== src/Coordination.antt =====
-- Timed paths and the reservation table: robotics/coordination/timed_path.py and
-- reservation_table.py. Timesteps are natural numbers and a robot's identifier is a number.
pub mod Vertices
pub mod Reserved
pub mod Positions
pub mod Requests
pub mod Claims
pub mod Accepted
mod Tests
use multi_robot_fulfillment.Common.{
  ℕ, zero, suc, ◌+◌, ◌-◌, ◌≡◌, ◌↔◌, Bool, true, false, not, ◌&&◌, ◌||◌, Option, none, some, List,
  [], ◌∷◌, arith, Eq, ◌==◌, nat_eq, nat_beq, leb, if◌then◌else◌, Result, ok, err, Error, Action,
  ◌>>=◌, ◌>>◌, pure, gets, modify, first?, last?, length, keep_if,
}
use multi_robot_fulfillment.Common.Dict.{Dict, lookup, insert, values}
use multi_robot_fulfillment.Geometry.{Position, position_eq, position_beq_iff}

pub record TimedStep : Type 0 where
  pub position : Position
  pub timestep : ℕ

-- The reasons of space_time_planner.py.
pub data FailureReason : Type 0 where
  start_out_of_bounds goal_out_of_bounds start_obstructed goal_obstructed : FailureReason
  start_reserved spatially_unreachable goal_held horizon_reached : FailureReason

pub record TimedPath : Type 0 where
  pub robot_id : ℕ
  pub steps : List TimedStep
  pub success : Bool
  pub failure_reason : Option FailureReason

unfoldable pub found : ℕ → List TimedStep → TimedPath
found robot_id steps = record {
  robot_id = robot_id;
  steps = steps;
  success = true;
  failure_reason = none;
}

unfoldable pub failed : ℕ → FailureReason → TimedPath
failed robot_id reason = record {
  robot_id = robot_id;
  steps = [];
  success = false;
  failure_reason = some reason;
}

-- `steps[-1]` and `steps[k]` of the steps that begin with `s`.
abbrev pub last_step : TimedStep → List TimedStep → TimedStep
last_step s [] = s
last_step s (q ∷ qs) = last_step q qs

abbrev pub step_at : ℕ → TimedStep → List TimedStep → Option TimedStep
step_at zero s ss = some s
step_at (suc k) s [] = none
step_at (suc k) s (q ∷ qs) = step_at k q qs

abbrev pub position_in : TimedStep → List TimedStep → ℕ → Result (Option Position)
position_in s ss timestep =
    if leb timestep s.timestep
    then ok (some s.position)
    else if leb (last_step s ss).timestep timestep
    then ok (some (last_step s ss).position)
    else elim (step_at (timestep - s.timestep) s ss) [
      | none ↦ err Error.index_error
      | some q ↦ ok (some q.position)
    ]

unfoldable pub position_at : TimedPath → ℕ → Result (Option Position)
position_at p timestep = elim p.steps [ [] ↦ ok none | s ∷ ss ↦ position_in s ss timestep ]

-- The keys `(cell, timestep)` and `(from, to, timestep)`.
pub record VertexKey : Type 0 where
  pub cell : Position
  pub timestep : ℕ

pub record EdgeKey : Type 0 where
  pub from_cell : Position
  pub to_cell : Position
  pub timestep : ℕ

abbrev pub vertex_beq : VertexKey → VertexKey → Bool
vertex_beq a b = a.cell == b.cell && nat_beq a.timestep b.timestep

pub vertex_beq_iff : (a b : VertexKey) → (vertex_beq a b ≡ true) ↔ (a ≡ b)
vertex_beq_iff a b = ground (arith, position_beq_iff a.cell b.cell)

instance abbrev pub vertex_eq : Eq VertexKey
vertex_eq = record { beq = vertex_beq; beq_iff = vertex_beq_iff }

abbrev pub edge_beq : EdgeKey → EdgeKey → Bool
edge_beq a b =
    a.from_cell == b.from_cell && (a.to_cell == b.to_cell && nat_beq a.timestep b.timestep)

pub edge_beq_iff : (a b : EdgeKey) → (edge_beq a b ≡ true) ↔ (a ≡ b)
edge_beq_iff a b =
    ground (arith, position_beq_iff a.from_cell b.from_cell, position_beq_iff a.to_cell b.to_cell)

instance abbrev pub edge_eq : Eq EdgeKey
edge_eq = record { beq = edge_beq; beq_iff = edge_beq_iff }

pub record ReservationTable : Type 0 where
  pub vertices : Dict VertexKey ℕ
  pub edges : Dict EdgeKey ℕ
  pub query_count : ℕ

abbrev pub empty_table : ReservationTable
empty_table = record { vertices = []; edges = []; query_count = 0 }

-- `existing is not None and existing != robot_id`
abbrev pub held_by_other : ℕ → Option ℕ → Bool
held_by_other robot_id none = false
held_by_other robot_id (some owner) = not (nat_beq owner robot_id)

unfoldable pub reserve_vertex : Position → ℕ → ℕ → Action ReservationTable (Unit {0})
reserve_vertex cell timestep robot_id t =
    let key : VertexKey = record { cell = cell; timestep = timestep } in
    if held_by_other robot_id (lookup key t.vertices)
    then (err Error.value_error, t)
    else (ok tt, record t { vertices = insert key robot_id t.vertices })

unfoldable pub reserve_edge : Position → Position → ℕ → ℕ → Action ReservationTable (Unit {0})
reserve_edge from_cell to_cell timestep robot_id t =
    let key : EdgeKey = record { from_cell = from_cell; to_cell = to_cell; timestep = timestep } in
    if held_by_other robot_id (lookup key t.edges)
    then (err Error.value_error, t)
    else (ok tt, record t { edges = insert key robot_id t.edges })

-- `for step in steps`
unfoldable pub reserve_steps : ℕ → List TimedStep → Action ReservationTable (Unit {0})
reserve_steps robot_id [] = pure tt
reserve_steps robot_id (step ∷ steps) = do
  reserve_vertex step.position step.timestep robot_id
  reserve_steps robot_id steps

-- `for earlier, later in zip(steps, steps[1:])`
unfoldable pub reserve_moves : ℕ → List TimedStep → Action ReservationTable (Unit {0})
reserve_moves robot_id [] = pure tt
reserve_moves robot_id (earlier ∷ []) = pure tt
reserve_moves robot_id (earlier ∷ later ∷ steps) =
    let rest = reserve_moves robot_id (later ∷ steps) in
    if earlier.position == later.position
    then rest
    else (do reserve_edge earlier.position later.position earlier.timestep robot_id; rest)

-- `count` timesteps from `timestep` on, as `range` gives them.
unfoldable pub hold_cell : Position → ℕ → ℕ → ℕ → Action ReservationTable (Unit {0})
hold_cell cell timestep zero robot_id = pure tt
hold_cell cell timestep (suc count) robot_id = do
  reserve_vertex cell timestep robot_id
  hold_cell cell (timestep + 1) count robot_id

-- The goal from arrival through the horizon. Without steps `steps[-1]` raises IndexError.
unfoldable pub hold_goal : ℕ → ℕ → Option TimedStep → Action ReservationTable (Unit {0})
hold_goal robot_id horizon none t = (err Error.index_error, t)
hold_goal robot_id horizon (some goal) t =
    hold_cell goal.position (goal.timestep + 1) (horizon - goal.timestep) robot_id t

unfoldable pub reserve_timed_path : TimedPath → ℕ → Action ReservationTable (Unit {0})
reserve_timed_path p horizon t =
    if not p.success
    then (err Error.value_error, t)
    else (do
      reserve_steps p.robot_id p.steps
      reserve_moves p.robot_id p.steps
      hold_goal p.robot_id horizon (last? p.steps))
        t

-- Calls of `reserve_timed_path`, one path after another, up to the first exception. The theorems on the
-- table are about such sequences; `plan` of Coordinator makes its own calls.
unfoldable pub reserve_all : List TimedPath → ℕ → Action ReservationTable (Unit {0})
reserve_all [] horizon = pure tt
reserve_all (p ∷ ps) horizon = reserve_timed_path p horizon >> reserve_all ps horizon

unfoldable pub vertex_reserver : Position → ℕ → Action ReservationTable (Option ℕ)
vertex_reserver cell timestep = do
  modify (λ t. record t { query_count = t.query_count + 1 })
  gets (λ t. lookup (record { cell = cell; timestep = timestep }) t.vertices)

unfoldable pub edge_reserver : Position → Position → ℕ → Action ReservationTable (Option ℕ)
edge_reserver from_cell to_cell timestep = do
  modify (λ t. record t { query_count = t.query_count + 1 })
  gets (λ t.
      lookup (record { from_cell = from_cell; to_cell = to_cell; timestep = timestep }) t.edges)

-- The callers give a robot, whose own reservations do not count.
unfoldable pub is_vertex_free : Position → ℕ → ℕ → Action ReservationTable Bool
is_vertex_free cell timestep for_robot = do
  reserver ← vertex_reserver cell timestep
  pure (not (held_by_other for_robot reserver))

unfoldable pub is_swap_conflict : Position → Position → ℕ → ℕ → Action ReservationTable Bool
is_swap_conflict from_cell to_cell timestep for_robot = do
  reverse_reserver ← edge_reserver to_cell from_cell timestep
  pure (held_by_other for_robot reverse_reserver)

-- `not self.is_swap_conflict(...)`
unfoldable pub no_swap : Position → Position → ℕ → ℕ → Action ReservationTable Bool
no_swap from_cell to_cell timestep for_robot = do
  swaps ← is_swap_conflict from_cell to_cell timestep for_robot
  pure (not swaps)

unfoldable pub is_move_allowed : Position → Position → ℕ → ℕ → Action ReservationTable Bool
is_move_allowed from_cell to_cell timestep for_robot = do
  free ← is_vertex_free to_cell (timestep + 1) for_robot
  if from_cell == to_cell || not free
      then pure free
      else no_swap from_cell to_cell timestep for_robot

abbrev pub owned_by : {K : Type 0} → ℕ → Dict K ℕ → ℕ
owned_by robot_id d = length (keep_if (λ owner. nat_beq owner robot_id) (values d))

abbrev pub without_owner : {K : Type 0} → ℕ → Dict K ℕ → Dict K ℕ
without_owner robot_id d = keep_if (λ entry. not (nat_beq entry.1 robot_id)) d

unfoldable pub reservations_owned_by : ℕ → ReservationTable → ℕ
reservations_owned_by robot_id t = owned_by robot_id t.vertices + owned_by robot_id t.edges

unfoldable pub release_robot : ℕ → Action ReservationTable ℕ
release_robot robot_id t = (
  ok (reservations_owned_by robot_id t),
  record t { vertices = without_owner robot_id t.vertices; edges = without_owner robot_id t.edges },
)

-- `for timestep in range(from_timestep, to_timestep + 1)`
unfoldable pub block_cell : Position → ℕ → ℕ → ℕ → Action ReservationTable ℕ
block_cell cell from_timestep to_timestep owner = do
  hold_cell cell from_timestep (to_timestep + 1 - from_timestep) owner
  pure (to_timestep + 1 - from_timestep)
