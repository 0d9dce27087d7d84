-- ===== src/Execution/Valid.antt =====
-- Routes that the validator of robotics/planning/validation.py passes, for `execute` of
-- robotics/execution/route_executor.py.
use multi_robot_fulfillment.Common.{
  ℕ, suc, ◌+◌, ◌≡◌, ◌≢◌, inl, inr, refl, sym, subst, ap, ◌∙◌, true, false, none, some, List, [],
  ◌∷◌, ◌∈◌, arith, ok, length, to_set, last?, nat_eq, nat_beq_iff, List-cases,
}
use multi_robot_fulfillment.Common.Dict.{lookup}
use multi_robot_fulfillment.Geometry.{Position, position_eq, position_beq_iff}
use multi_robot_fulfillment.Grid
use multi_robot_fulfillment.Warehouse
use multi_robot_fulfillment.Warehouse.{Warehouse}
use multi_robot_fulfillment.Robot.{Robot, RobotStatus}
use multi_robot_fulfillment.Planning.{PathResult}
use multi_robot_fulfillment.Planning.Validation.{
  cell_problems, move_problems, find_path_problems, is_valid_path,
}
use multi_robot_fulfillment.Planning.Sound.{passed, passed_checks, legal_step, free_cell}
use multi_robot_fulfillment.Simulator.{Simulator}
use multi_robot_fulfillment.Simulator.Moves.{IsSound}
use multi_robot_fulfillment.Execution.{
  Route, Resolved, ExecutionResult, Progress, resolve_path, check_cells, first_gap, preflight,
  finished, from_start, execute_path, execute, last_cell, walk,
}
use multi_robot_fulfillment.Execution.Walks.{walk-Walked}
use multi_robot_fulfillment.Execution.Outcome.{execute_resolved}
use multi_robot_fulfillment.Execution.Runs.{
  Executed, append-nil_left, execute_path-Executed, drive_result, path_of_one, path_driven,
}
use multi_robot_fulfillment.Execution.Arrivals.{FreeFor, CanPay, is_offline, walk_free}

valid-problems :
    (p : PathResult) (w : Warehouse) → is_valid_path p w ≡ true → find_path_problems p w ≡ []
unfolding is_valid_path
valid-problems p w valid = elim (List-cases (find_path_problems p w)) [
  | inl nothing ↦ nothing
  | inr (x, rest, some_found) ↦ absurd (ground (arith, some_found))
]

no_gap : (i j : ℕ) (path : List Position) → move_problems i path ≡ [] → first_gap j path ≡ none
unfolding first_gap
no_gap i j [] legal = refl
no_gap i j (p ∷ []) legal = refl
no_gap i j (p ∷ q ∷ rest) legal =
    let (near, legal') = legal_step i p q rest legal in
    ground (arith, near, no_gap (i + 1) (suc j) (q ∷ rest) legal')

checked :
    (start : Position) (rest : List Position)
    → first_gap 0 (start ∷ rest) ≡ none
    → length (to_set (start ∷ rest)) ≡ length (start ∷ rest)
    → check_cells (start ∷ rest) ≡ Resolved.ready (start ∷ rest)
unfolding check_cells
checked start rest h same =
    ground
      (arith, h, same, (nat_beq_iff (length (to_set (start ∷ rest))) (length (start ∷ rest))).1)

resolved :
    (p : PathResult) (start : Position) (rest : List Position)
    → p.success ≡ true
    → p.path ≡ start ∷ rest
    → check_cells (start ∷ rest) ≡ Resolved.ready (start ∷ rest)
    → resolve_path (Route.planned p) ≡ Resolved.ready (start ∷ rest)
unfolding resolve_path
resolved p start rest success is_path h = ground (arith, success, is_path, h)

last-last_cell :
    (start : Position) (rest : List Position) → last? (start ∷ rest) ≡ some (last_cell start rest)
unfolding last_cell
last-last_cell start [] = refl
last-last_cell start (next ∷ rest) = last-last_cell next rest

not-is_offline : (r : Robot) → r.status ≢ RobotStatus.offline → is_offline r.status ≡ false
not-is_offline r h = ground arith

preflight_passes :
    (r : Robot) (start : Position)
    → is_offline r.status ≡ false
    → start ≡ r.position
    → preflight r start ≡ none
unfolding preflight
preflight_passes r start working here = ground (arith, working, position_beq_iff start r.position)

on_floor :
    (w : Warehouse) (p : Position)
    → Warehouse.is_traversable w p ≡ true
    → (Warehouse.in_bounds w p ≡ true) × (Warehouse.is_blocked_by_dynamic w p ≡ false)
unfolding Warehouse.is_traversable Warehouse.in_bounds Grid.is_traversable
on_floor w p free = (ground arith, ground arith)

cells-free :
    (w : Warehouse) (i : ℕ) (path : List Position) (p : Position)
    → cell_problems w i path ≡ []
    → p ∈ path
    → Warehouse.is_traversable w p ≡ true
cells-free w i [] p cells on = absurd on
cells-free w i (q ∷ rest) p cells on =
    let (free, cells') = free_cell w i q rest cells in
    elim on [
      | inl same ↦ subst (λ x. Warehouse.is_traversable w x ≡ true) (sym same) free
      | inr later ↦ cells-free w (i + 1) rest p cells' later
    ]

module _ (robot_id : ℕ) (s : Simulator) where
  walk_knows :
      (r : Robot) (start : Position) (rest : List Position)
      → IsSound s
      → lookup robot_id s.robots ≡ some r
      → (outcome : Progress) (after : Simulator)
      → walk robot_id rest (from_start start) s ≡ (ok outcome, after)
      → (robot : Robot) × (lookup robot_id after.robots ≡ some robot)
  walk_knows r start rest sound known outcome after returns =
      let walked = walk-Walked robot_id r rest (from_start start) s sound known in
      let same : walked.after ≡ after = ap (λ x. x.1) (sym walked.returns ∙ returns) in
      (walked.robot, subst (λ x. lookup robot_id x.robots ≡ some walked.robot) same walked.known)

  -- A run over free cells is a success.
  execute_path-free :
      (r : Robot) (start : Position) (rest : List Position)
      → IsSound s
      → lookup robot_id s.robots ≡ some r
      → is_offline r.status ≡ false
      → start ≡ r.position
      → move_problems 0 (start ∷ rest) ≡ []
      → CanPay r (length rest)
      → ((q : Position) → q ∈ rest → FreeFor robot_id q s)
      → (result : ExecutionResult) × (after : Simulator) × (execute_path r robot_id (start ∷ rest) s
          ≡ (ok result, after))
        × (result.success ≡ true)
        × Executed robot_id s r start rest result after
  unfolding finished
  execute_path-free r start [] sound known working here legal pays free =
      let passes = preflight_passes r start working here in
      let (result, after, returns, _, executed) =
        execute_path-Executed robot_id s r start [] sound known passes in
      let same = sym returns ∙ path_of_one robot_id s r start passes in
      (result, after, returns, ground (arith, same), executed)
  execute_path-free r start (next ∷ rest) sound known working here legal pays free =
      let passes = preflight_passes r start working here in
      let (result, after, returns, _, executed) =
        execute_path-Executed robot_id s r start (next ∷ rest) sound known passes in
      let (outcome, there, walked, going) =
        walk_free robot_id r (next ∷ rest) 0 (from_start start) s sound known working
          (subst (λ p. move_problems 0 (p ∷ next ∷ rest) ≡ []) here legal) pays free in
      let (robot, known') = walk_knows r start (next ∷ rest) sound known outcome there walked in
      let same =
        sym returns
        ∙ path_driven robot_id s r start next rest passes
        ∙ drive_result robot_id s r robot start (next ∷ rest) outcome there walked known' in
      (result, after, returns, ground (arith, same, going), executed)

  cell-FreeFor :
      (p : PathResult) (q : Position)
      → cell_problems s.warehouse 0 p.path ≡ []
      → q ∈ p.path
      → Warehouse.is_blocked_by_static s.warehouse q ≡ false
      → ((j : ℕ) (other : Robot)
          → j ≢ robot_id
          → lookup j s.robots ≡ some other
          → other.position ≢ q)
      → FreeFor robot_id q s
  cell-FreeFor p q cells on no_static nobody =
      let (inside, no_dynamic) =
        on_floor s.warehouse q (cells-free s.warehouse 0 p.path q cells on) in
      record { inside = inside; no_static = no_static; no_dynamic = no_dynamic; nobody = nobody }

  -- The robot drove the whole path and stands at the goal.
  pub record Arrived (p : PathResult) : Type 0 where
    pub result : ExecutionResult
    pub after : Simulator
    pub robot : Robot
    pub returns : execute robot_id (Route.planned p) s ≡ (ok result, after)
    pub succeeds : result.success ≡ true
    pub whole : result.completed_path ≡ p.path
    pub known : lookup robot_id after.robots ≡ some robot
    pub there : robot.position ≡ p.goal

  Executed-Arrived :
      (p : PathResult) (r : Robot) (start : Position) (rest : List Position)
      (result : ExecutionResult) (after : Simulator)
      → p.path ≡ start ∷ rest
      → last? p.path ≡ some p.goal
      → execute robot_id (Route.planned p) s ≡ (ok result, after)
      → result.success ≡ true
      → Executed robot_id s r start rest result after
      → Arrived p
  Executed-Arrived p r start rest result after is_path last returns succeeds executed =
      elim executed.ended [
        | inr (fails, _) ↦ absurd (ground (arith, succeeds, fails))
        | inl (_, nothing) ↦
            let all : executed.driven ≡ rest =
              append-nil_left executed.driven executed.left rest executed.split nothing in
            let at_last : some (last_cell start rest) ≡ some p.goal =
              sym (last-last_cell start rest) ∙ sym (ap last? is_path) ∙ last in
            record {
              result = result;
              after = after;
              robot = executed.robot;
              returns = returns;
              succeeds = succeeds;
              whole = executed.path ∙ ap (λ cells. start ∷ cells) all ∙ sym is_path;
              known = executed.known;
              there =
                  executed.drives.stands
                  ∙ ap (λ q. last_cell q executed.driven) executed.starts
                  ∙ ap (λ cells. last_cell start cells) all
                  ∙ ground (arith, at_last);
            }
      ]

  -- A path that the validator passes is driven to its end: in a sound state, a robot that is not
  -- offline and stands at its start, with a charge that pays for its moves, when no static obstacle is
  -- registered on its cells and no other robot stands on them. `execute` then returns a success whose
  -- completed path is the whole path, and the robot stands at the goal.
  pub execute_arrives :
      (p : PathResult) (r : Robot) (moves : ℕ)
      → IsSound s
      → lookup robot_id s.robots ≡ some r
      → r.status ≢ RobotStatus.offline
      → p.success ≡ true
      → is_valid_path p s.warehouse ≡ true
      → p.start ≡ r.position
      → length p.path ≡ suc moves
      → CanPay r moves
      → ((q : Position) → q ∈ p.path → Warehouse.is_blocked_by_static s.warehouse q ≡ false)
      → ((q : Position) (j : ℕ) (other : Robot)
          → q ∈ p.path
          → j ≢ robot_id
          → lookup j s.robots ≡ some other
          → other.position ≢ q)
      → Arrived p
  execute_arrives p r moves sound known online success valid here count pays no_static nobody =
      let checks =
        passed_checks p s.warehouse
          (passed p s.warehouse success (valid-problems p s.warehouse valid)) in
      elim (List-cases p.path) [
        | inl empty ↦ absurd (ground (arith, count, empty))
        | inr (start, rest, is_path) ↦
            let first : start ≡ p.start = ground (arith, checks.first, is_path) in
            let legal = subst (λ cells. move_problems 0 cells ≡ []) is_path checks.moves in
            let lengths =
              subst (λ cells. length (to_set cells) ≡ length cells) is_path checks.no_repeat in
            let ready =
              resolved p start rest success is_path
                (checked start rest (no_gap 0 0 (start ∷ rest) legal) lengths) in
            let left : length rest ≡ moves = ground (arith, count, is_path) in
            let (result, after, returns, succeeds, executed) =
              execute_path-free r start rest sound known (not-is_offline r online) (first ∙ here)
                legal (subst (λ n. CanPay r n) (sym left) pays)
                (λ q on.
                  let on_path : q ∈ p.path = subst (λ cells. q ∈ cells) (sym is_path) (inr on) in
                  cell-FreeFor p q checks.cells on_path (no_static q on_path)
                    (λ j other differ l. nobody q j other on_path differ l)) in
            Executed-Arrived p r start rest result after is_path checks.last
              (execute_resolved robot_id s (Route.planned p) r (start ∷ rest) known ready ∙ returns)
              succeeds executed
      ]
