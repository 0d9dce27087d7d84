-- ===== src/Execution/Runs.antt =====
-- Runs over a path, after the checks: `execute` of robotics/execution/route_executor.py from the
-- preflight on.
use multi_robot_fulfillment.Common.{
  ℕ, ◌+◌, ◌-◌, ◌≡◌, ◌⊎◌, inl, inr, refl, sym, ap, ◌∙◌, true, false, none, some, List, [], ◌∷◌, ◌++◌,
  arith, ok, length, nat_eq,
}
use multi_robot_fulfillment.Common.Dict.{lookup}
use multi_robot_fulfillment.Geometry.{Position, position_eq, position_beq_iff}
use multi_robot_fulfillment.Robot.{Robot}
use multi_robot_fulfillment.Simulator.{Simulator, get_robot}
use multi_robot_fulfillment.Simulator.Moves.{IsSound}
use multi_robot_fulfillment.Execution.{
  Route, StopReason, ExecutionResult, Progress, preflight, not_started, finished, from_start, drive,
  execute_path, walk, last_cell,
}
use multi_robot_fulfillment.Execution.Refusals.{IsRefused}
use multi_robot_fulfillment.Execution.Walks.{Halts, Drives, Walked, walk-Walked}

pub preflight-none : (r : Robot) (first : Position) → preflight r first ≡ none → first ≡ r.position
unfolding preflight
preflight-none r first h = ground (arith, position_beq_iff first r.position)

pub append-nil_left :
    (driven left rest : List Position) → driven ++ left ≡ rest → left ≡ [] → driven ≡ rest
append-nil_left [] left rest split h = sym h ∙ split
append-nil_left (x ∷ xs) left [] split h = ground arith
append-nil_left (x ∷ xs) left (y ∷ ys) split h = ground (arith, append-nil_left xs left ys)

module _ (robot_id : ℕ) (s : Simulator) where
  -- The loop ran over the cells of the path after the first, and was stopped at the first move that
  -- was refused.
  pub record Executed (r : Robot) (start : Position) (rest : List Position)
      (result : ExecutionResult) (after : Simulator) : Type 0 where
    pub robot : Robot
    pub driven : List Position
    pub left : List Position
    pub split : driven ++ left ≡ rest
    pub known : lookup robot_id after.robots ≡ some robot
    pub drives : Drives robot_id r robot driven
    pub starts : r.position ≡ start
    pub path : result.completed_path ≡ start ∷ driven
    pub steps : result.executed_steps ≡ length driven
    pub planned : result.planned_steps ≡ length rest
    pub final : result.final_position ≡ robot.position
    pub goal : result.goal ≡ last_cell start rest
    pub distance : result.distance_travelled ≡ length driven
    pub before : result.battery_before ≡ r.battery_level
    pub charge : result.battery_after ≡ robot.battery_level
    pub ended :
        (result.success ≡ true) × (left ≡ [])
        ⊎ (result.success ≡ false) × Halts robot_id left robot after

  -- Nothing was moved: the result says why, with the cause, and that the robot is where it was.
  pub record NotStarted (route : Route) (r : Robot) (result : ExecutionResult) (after : Simulator)
      : Type 0 where
    pub reason : StopReason
    pub says : result.failure_reason ≡ some reason
    pub cause : IsRefused r route reason
    pub unchanged : after ≡ s
    pub fails : result.success ≡ false
    pub stays : result.final_position ≡ r.position
    pub no_steps : result.executed_steps ≡ 0
    pub path : result.completed_path ≡ r.position ∷ []

  pub not_started-NotStarted :
      (route : Route) (r : Robot) (start goal : Position) (steps : ℕ) (reason : StopReason)
      → IsRefused r route reason
      → NotStarted route r (not_started r robot_id start goal steps reason) s
  unfolding not_started
  not_started-NotStarted route r start goal steps reason cause = record {
    reason = reason;
    says = refl;
    cause = cause;
    unchanged = refl;
    fails = refl;
    stays = refl;
    no_steps = refl;
    path = refl;
  }

  pub drive_result :
      (r robot : Robot) (start : Position) (rest : List Position) (progress : Progress)
      (after : Simulator)
      → walk robot_id rest (from_start start) s ≡ (ok progress, after)
      → lookup robot_id after.robots ≡ some robot
      → drive r robot_id start rest s ≡ (
        ok (finished r robot robot_id start (last_cell start rest) (length rest) progress),
        after,
      )
  unfolding drive get_robot
  drive_result r robot start rest progress after walked known = ground arith

  no_distance : (a b n : ℕ) → a ≡ b + n → a - b ≡ n
  no_distance a b n h = omega arith

  -- The final position is the goal when the loop ended, and where the robot is when it stopped.
  finished-ended :
      (r : Robot) (start : Position) (rest : List Position)
      (walked : Walked robot_id r rest (from_start start) s)
      → r.position ≡ start
      → let result =
          finished r walked.robot robot_id start
            (last_cell start rest)
            (length rest)
            walked.outcome in
        (result.final_position ≡ walked.robot.position)
        × ((result.success ≡ true) × (walked.left ≡ [])
            ⊎ (result.success ≡ false) × Halts robot_id walked.left walked.robot walked.after)
  unfolding finished
  finished-ended r start rest walked starts = elim walked.ended [
    | inl (nothing, going) ↦
        let all = append-nil_left walked.driven walked.left rest walked.split nothing in
        let there : walked.robot.position ≡ last_cell start rest =
          walked.drives.stands
          ∙ ap (λ p. last_cell p walked.driven) starts
          ∙ ap (λ cells. last_cell start cells) all in
        (ground (arith, going, there), inl (ground (arith, going), nothing))
    | inr (refused, halts) ↦ (ground (arith, refused), inr (ground (arith, refused), halts))
  ]

  drive-Executed :
      (r : Robot) (start : Position) (rest : List Position)
      → IsSound s
      → lookup robot_id s.robots ≡ some r
      → r.position ≡ start
      → (result : ExecutionResult) × (after : Simulator) × (drive r robot_id start rest s
          ≡ (ok result, after))
        × IsSound after
        × Executed r start rest result after
  unfolding finished
  drive-Executed r start rest sound known starts =
      let walked = walk-Walked robot_id r rest (from_start start) s sound known in
      let (final, ended) = finished-ended r start rest walked starts in
      let result =
        finished r walked.robot robot_id start (last_cell start rest) (length rest)
          walked.outcome in
      (
        result,
        walked.after,
        drive_result r walked.robot start rest walked.outcome walked.after walked.returns
            walked.known,
        walked.sound,
        record {
          robot = walked.robot;
          driven = walked.driven;
          left = walked.left;
          split = walked.split;
          known = walked.known;
          drives = walked.drives;
          starts = starts;
          path = walked.path;
          steps = omega (arith, walked.steps);
          planned = refl;
          final = final;
          goal = refl;
          distance =
              no_distance walked.robot.distance_travelled r.distance_travelled
                (length walked.driven) walked.drives.odometer;
          before = refl;
          charge = refl;
          ended = ended;
        },
      )

  -- A path of one cell: there is nothing to drive.
  rest-Executed :
      (r : Robot) (start : Position)
      → lookup robot_id s.robots ≡ some r
      → r.position ≡ start
      → Executed r start []
          (finished r r robot_id start (last_cell start []) 0 (from_start start))
          s
  unfolding finished last_cell
  rest-Executed r start known starts = record {
    robot = r;
    driven = [];
    left = [];
    split = refl;
    known = known;
    drives = record { stands = refl; odometer = omega arith; price = refl; charge = refl };
    starts = starts;
    path = refl;
    steps = refl;
    planned = refl;
    final = sym starts;
    goal = refl;
    distance = no_distance r.distance_travelled r.distance_travelled 0 (omega arith);
    before = refl;
    charge = refl;
    ended = inl (refl, refl);
  }

  pub path_refused :
      (r : Robot) (start : Position) (rest : List Position) (reason : StopReason)
      → preflight r start ≡ some reason
      → execute_path r robot_id (start ∷ rest) s
        ≡ (ok (not_started r robot_id start (last_cell start rest) (length rest) reason), s)
  unfolding execute_path
  path_refused r start rest reason h = ground arith

  pub path_of_one :
      (r : Robot) (start : Position)
      → preflight r start ≡ none
      → execute_path r robot_id (start ∷ []) s
        ≡ (ok (finished r r robot_id start (last_cell start []) 0 (from_start start)), s)
  unfolding execute_path
  path_of_one r start h = ground arith

  pub path_driven :
      (r : Robot) (start next : Position) (rest : List Position)
      → preflight r start ≡ none
      → execute_path r robot_id (start ∷ next ∷ rest) s ≡ drive r robot_id start (next ∷ rest) s
  unfolding execute_path
  path_driven r start next rest h = ground arith

  pub execute_path-Executed :
      (r : Robot) (start : Position) (rest : List Position)
      → IsSound s
      → lookup robot_id s.robots ≡ some r
      → preflight r start ≡ none
      → (result : ExecutionResult) × (after : Simulator) × (execute_path r robot_id (start ∷ rest) s
          ≡ (ok result, after))
        × IsSound after
        × Executed r start rest result after
  execute_path-Executed r start [] sound known h = (
    finished r r robot_id start (last_cell start []) 0 (from_start start),
    s,
    path_of_one r start h,
    sound,
    rest-Executed r start known (sym (preflight-none r start h)),
  )
  execute_path-Executed r start (next ∷ rest) sound known h =
      let (result, after, returns, kept, executed) =
        drive-Executed r start (next ∷ rest) sound known (sym (preflight-none r start h)) in
      (result, after, path_driven r start next rest h ∙ returns, kept, executed)
