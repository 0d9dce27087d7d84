-- ===== src/Conflicts.antt =====
-- The independent check of timed paths: robotics/coordination/conflicts.py. A problem is a value in
-- place of a message: it names the robots, and the step or the cell and the timestep.
pub mod Fleet
pub mod Steps
pub mod Sent
pub mod Passes
pub mod Raises
mod Tests
use multi_robot_fulfillment.Common.{
  ℕ, zero, suc, ◌+◌, ◌-◌, Bool, true, false, not, ◌&&◌, Option, none, some, List, [], ◌∷◌, ◌++◌,
  map, ◌==◌, nat_eq, nat_beq, leb, ltb, if◌then◌else◌, keep_if, last?, option_beq, Eq, ◌≡◌, ◌↔◌,
  arith, Result, ok, err, Error,
}
use multi_robot_fulfillment.Common.Dict.{Dict, lookup, insert}
use multi_robot_fulfillment.Common.Fallible.{◌>>=◌}
use multi_robot_fulfillment.Geometry.{
  Position, position_eq, position_beq_iff, manhattan_distance_to,
}
use multi_robot_fulfillment.Warehouse
use multi_robot_fulfillment.Warehouse.{Warehouse}
use multi_robot_fulfillment.Coordination.{TimedStep, TimedPath, position_at}
use multi_robot_fulfillment.Coordinator.{start_time, arrival_time, maximum}

pub data Conflict : Type 0 where
  no_steps wrong_start : ℕ → Conflict
  wrong_timestep outside obstructed illegal_transition : ℕ → ℕ → Conflict
  vertex_conflict : Position → ℕ → ℕ → ℕ → Conflict
  swap_conflict : ℕ → ℕ → Position → Position → ℕ → Conflict
  goal_violation : ℕ → ℕ → Position → ℕ → Conflict

-- `if expected_starts is not None and rid in expected_starts`
unfoldable pub start_problems : Option (Dict ℕ Position) → ℕ → TimedStep → List Conflict
start_problems none r s = []
start_problems (some expected) r s = elim (lookup r expected) [
  | none ↦ []
  | some cell ↦ if s.position == cell then [] else Conflict.wrong_start r ∷ []
]

-- `want` counts up from the first timestep, and `i` from zero.
unfoldable pub timestep_problems : ℕ → ℕ → ℕ → List TimedStep → List Conflict
timestep_problems r want i [] = []
timestep_problems r want i (s ∷ ss) =
    let rest = timestep_problems r (suc want) (suc i) ss in
    if nat_beq s.timestep want then rest else Conflict.wrong_timestep r i ∷ rest

unfoldable pub cell_problems : Warehouse → Bool → ℕ → ℕ → List TimedStep → List Conflict
cell_problems w check_obstacles r i [] = []
cell_problems w check_obstacles r i (s ∷ ss) =
    let rest = cell_problems w check_obstacles r (suc i) ss in
    if not (Warehouse.in_bounds w s.position)
    then Conflict.outside r i ∷ rest
    else if check_obstacles && not (Warehouse.is_traversable w s.position)
    then Conflict.obstructed r i ∷ rest
    else rest

-- `if gap not in (0, 1)`
unfoldable pub transition_problems : ℕ → ℕ → List TimedStep → List Conflict
transition_problems r i [] = []
transition_problems r i (a ∷ []) = []
transition_problems r i (a ∷ b ∷ ss) =
    let rest = transition_problems r (suc i) (b ∷ ss) in
    if leb (manhattan_distance_to a.position b.position) 1
    then rest
    else Conflict.illegal_transition r i ∷ rest

unfoldable pub step_problems :
    Warehouse → Option (Dict ℕ Position) → Bool → ℕ → List TimedStep → List Conflict
step_problems w expected_starts check_obstacles r [] = Conflict.no_steps r ∷ []
step_problems w expected_starts check_obstacles r (s ∷ ss) =
    start_problems expected_starts r s
    ++ (timestep_problems r s.timestep 0 (s ∷ ss)
        ++ (cell_problems w check_obstacles r 0 (s ∷ ss) ++ transition_problems r 0 (s ∷ ss)))

unfoldable pub path_problems :
    Warehouse → Option (Dict ℕ Position) → Bool → List TimedPath → List Conflict
path_problems w expected_starts check_obstacles [] = []
path_problems w expected_starts check_obstacles (p ∷ ps) =
    step_problems w expected_starts check_obstacles p.robot_id p.steps
    ++ path_problems w expected_starts check_obstacles ps

-- The loop over the paths at one timestep, with the cells that were seen.
unfoldable pub seen_problems : ℕ → Dict Position ℕ → List TimedPath → Result (List Conflict)
seen_problems t seen [] = ok []
seen_problems t seen (p ∷ ps) = position_at p t >>= λ pos. elim pos [
  | none ↦ seen_problems t seen ps
  | some cell ↦ elim (lookup cell seen) [
    | none ↦ seen_problems t (insert cell p.robot_id seen) ps
    | some other ↦ seen_problems t seen ps >>= λ rest.
        ok (Conflict.vertex_conflict cell t other p.robot_id ∷ rest)
  ]
]

-- `for t in range(...)`: `count` timesteps from `t` on.
unfoldable pub vertex_problems : List TimedPath → ℕ → ℕ → Result (List Conflict)
vertex_problems ps t zero = ok []
vertex_problems ps t (suc count) =
    seen_problems t [] ps >>= λ here. vertex_problems ps (suc t) count >>= λ rest. ok (here ++ rest)

-- The keys `(from, to)` of the moves.
pub record MoveKey : Type 0 where
  pub from_cell : Position
  pub to_cell : Position

abbrev pub move_beq : MoveKey → MoveKey → Bool
move_beq a b = a.from_cell == b.from_cell && a.to_cell == b.to_cell

pub move_beq_iff : (a b : MoveKey) → (move_beq a b ≡ true) ↔ (a ≡ b)
move_beq_iff a b =
    ground (arith, position_beq_iff a.from_cell b.from_cell, position_beq_iff a.to_cell b.to_cell)

instance abbrev pub move_eq : Eq MoveKey
move_eq = record { beq = move_beq; beq_iff = move_beq_iff }

abbrev pub move_key : Position → Position → MoveKey
move_key a b = record { from_cell = a; to_cell = b }

unfoldable pub record_move : Option Position → Option Position → ℕ → Dict MoveKey ℕ → Dict MoveKey ℕ
record_move none b r moves = moves
record_move (some a) none r moves = moves
record_move (some a) (some b) r moves = if a == b then moves else insert (move_key a b) r moves

unfoldable pub moves_at : ℕ → Dict MoveKey ℕ → List TimedPath → Result (Dict MoveKey ℕ)
moves_at t moves [] = ok moves
moves_at t moves (p ∷ ps) = position_at p t >>= λ a.
    position_at p (t + 1) >>= λ b. moves_at t (record_move a b p.robot_id moves) ps

-- `for (a, b), rid in moves.items()`
unfoldable pub swaps_in : ℕ → Dict MoveKey ℕ → Dict MoveKey ℕ → List Conflict
swaps_in t moves [] = []
swaps_in t moves ((k, rid) ∷ entries) =
    let rest = swaps_in t moves entries in
    elim (lookup (move_key k.to_cell k.from_cell) moves) [
      | none ↦ rest
      | some other ↦
          if not (nat_beq other rid) && ltb rid other
          then Conflict.swap_conflict rid other k.from_cell k.to_cell t ∷ rest
          else rest
    ]

unfoldable pub swap_problems : List TimedPath → ℕ → ℕ → Result (List Conflict)
swap_problems ps t zero = ok []
swap_problems ps t (suc count) = moves_at t [] ps >>= λ moves.
    swap_problems ps (suc t) count >>= λ rest. ok (swaps_in t moves moves ++ rest)

-- The timesteps from the arrival on; the loop ends at the first violation.
unfoldable pub intrusions : TimedPath → Position → TimedPath → ℕ → ℕ → Result (List Conflict)
intrusions p goal other t zero = ok []
intrusions p goal other t (suc count) = position_at other t >>= λ pos.
    elim (option_beq pos (some goal)) [
      | true ↦ ok (Conflict.goal_violation other.robot_id p.robot_id goal t ∷ [])
      | false ↦ intrusions p goal other (suc t) count
    ]

unfoldable pub goal_problems_with :
    TimedPath → Position → ℕ → List TimedPath → Result (List Conflict)
goal_problems_with p goal horizon [] = ok []
goal_problems_with p goal horizon (other ∷ others) =
    (if nat_beq other.robot_id p.robot_id
      then ok []
      else intrusions p goal other (arrival_time p) (horizon + 1 - arrival_time p))
    >>= λ here. goal_problems_with p goal horizon others >>= λ rest. ok (here ++ rest)

-- `goal = tp.steps[-1].position`, which raises IndexError without steps.
unfoldable pub goal_problems : List TimedPath → ℕ → List TimedPath → Result (List Conflict)
goal_problems paths horizon [] = ok []
goal_problems paths horizon (p ∷ ps) = elim (last? p.steps) [
  | none ↦ err Error.index_error
  | some goal ↦ goal_problems_with p goal.position horizon paths >>= λ here.
      goal_problems paths horizon ps >>= λ rest. ok (here ++ rest)
]

-- `min(ns)` of numbers that begin with `n`.
abbrev pub minimum : ℕ → List ℕ → ℕ
minimum n [] = n
minimum n (k ∷ ks) = if ltb k n then minimum k ks else minimum n ks

-- The checks of the paths against one another.
unfoldable pub cross_problems : List TimedPath → ℕ → ℕ → Result (List Conflict)
cross_problems paths first horizon =
    vertex_problems paths first (horizon + 1 - first) >>= λ vertices.
    swap_problems paths first (horizon - first) >>= λ swaps.
    goal_problems paths horizon paths >>= λ goals. ok (vertices ++ (swaps ++ goals))

unfoldable pub problems_of :
    List TimedPath → Warehouse → Option (Dict ℕ Position) → Bool → Result (List Conflict)
problems_of [] w expected_starts check_obstacles = ok []
problems_of (p ∷ ps) w expected_starts check_obstacles =
    cross_problems (p ∷ ps) (minimum (start_time p) (map start_time ps))
      (maximum (map arrival_time (p ∷ ps)))
    >>= λ cross. ok (path_problems w expected_starts check_obstacles (p ∷ ps) ++ cross)

unfoldable pub find_coordination_problems :
    List TimedPath → Warehouse → Option (Dict ℕ Position) → Bool → Result (List Conflict)
find_coordination_problems timed_paths = problems_of (keep_if (λ p. p.success) timed_paths)

abbrev pub none_found : List Conflict → Bool
none_found [] = true
none_found (c ∷ cs) = false

unfoldable pub is_conflict_free :
    List TimedPath → Warehouse → Option (Dict ℕ Position) → Result Bool
is_conflict_free timed_paths w expected_starts =
    find_coordination_problems timed_paths w expected_starts true >>= λ problems.
    ok (none_found problems)
