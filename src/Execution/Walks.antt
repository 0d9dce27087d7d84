-- ===== src/Execution/Walks.antt =====
-- The loop of `execute` in robotics/execution/route_executor.py.
use multi_robot_fulfillment.Common.{
  ℕ, zero, suc, ◌+◌, ◌≡◌, ◌⊎◌, inl, inr, refl, sym, subst, ap, ◌∙◌, true, some, List, [], ◌∷◌, ◌++◌,
  arith, ok, err, Error, length, nat_eq,
}
use multi_robot_fulfillment.Common.Int.{ℤ}
use multi_robot_fulfillment.Common.Float.{◌-f◌}
use multi_robot_fulfillment.Common.Dict.{lookup, lookup-insert_self}
use multi_robot_fulfillment.Geometry.{Position}
use multi_robot_fulfillment.Robot.{Robot}
use multi_robot_fulfillment.Robot.Bookkeeping.{HasMoved}
use multi_robot_fulfillment.Simulator
use multi_robot_fulfillment.Simulator.{Simulator, MoveReason, get_robot, put_robot, validate_move}
use multi_robot_fulfillment.Simulator.Moves.{IsSound, Arrives, move_robot_outcome}
use multi_robot_fulfillment.Simulator.Standing.{move_robot-IsSound}
use multi_robot_fulfillment.Execution.{Progress, one_more, after_move, walk, last_cell}

-- The charge that a number of moves of one price leave.
abbrev pub charge_after : ℕ → ℤ → ℤ → ℤ
charge_after zero price charge = charge
charge_after (suc count) price charge = charge_after count price (charge -f price)

module _ (robot_id : ℕ) where
  -- The step that was refused: `validate_move` gave a reason for the next cell, and the robot's last
  -- error is all that changed.
  pub record Halts (left : List Position) (robot : Robot) (after : Simulator) : Type 0 where
    pub next : Position
    pub more : List Position
    pub is_left : left ≡ next ∷ more
    pub before : Simulator
    pub reason : MoveReason
    pub invalid : validate_move robot_id next before ≡ ok (some reason)
    pub blamed : after ≡ put_robot robot_id robot before

  -- What the loop leaves: the cells that were driven, and the robot on the last of them.
  pub record Drives (r robot : Robot) (driven : List Position) : Type 0 where
    pub stands : robot.position ≡ last_cell r.position driven
    pub odometer : robot.distance_travelled ≡ r.distance_travelled + length driven
    pub price : robot.battery_drain_per_move ≡ r.battery_drain_per_move
    pub charge :
        robot.battery_level ≡ charge_after (length driven) r.battery_drain_per_move r.battery_level

  pub record Walked (r : Robot) (rest : List Position) (progress : Progress) (s : Simulator)
      : Type 0 where
    pub outcome : Progress
    pub after : Simulator
    pub robot : Robot
    pub driven : List Position
    pub left : List Position
    pub split : driven ++ left ≡ rest
    pub returns : walk robot_id rest progress s ≡ (ok outcome, after)
    pub steps : outcome.executed_steps ≡ progress.executed_steps + length driven
    pub path : outcome.completed_path ≡ progress.completed_path ++ driven
    pub sound : IsSound after
    pub known : lookup robot_id after.robots ≡ some robot
    pub drives : Drives r robot driven
    pub ended :
        (left ≡ []) × (outcome.refused ≡ progress.refused)
        ⊎ (outcome.refused ≡ true) × Halts left robot after

  pub walk_moved :
      (next : Position) (rest : List Position) (progress : Progress) (s s' : Simulator) (m : Robot)
      → Simulator.move_robot robot_id next s ≡ (ok tt, s')
      → lookup robot_id s'.robots ≡ some m
      → walk robot_id (next ∷ rest) progress s
        ≡ walk robot_id rest (one_more m.position progress) s'
  unfolding walk after_move get_robot
  walk_moved next rest progress s s' m moved known = ground arith

  walk_refused :
      (next : Position) (rest : List Position) (progress : Progress) (s s' : Simulator)
      → Simulator.move_robot robot_id next s ≡ (err Error.invalid_move, s')
      → walk robot_id (next ∷ rest) progress s ≡ (ok (record progress { refused = true }), s')
  unfolding walk after_move
  walk_refused next rest progress s s' refused = ground arith

  append-nil : (xs : List Position) → xs ++ [] ≡ xs
  append-nil [] = refl
  append-nil (x ∷ xs) = ap (λ ys. x ∷ ys) (append-nil xs)

  append-one : (xs ys : List Position) (y : Position) → (xs ++ (y ∷ [])) ++ ys ≡ xs ++ (y ∷ ys)
  append-one [] ys y = refl
  append-one (x ∷ xs) ys y = ap (λ zs. x ∷ zs) (append-one xs ys y)

  Drives-none : (r : Robot) → Drives r r []
  unfolding last_cell
  Drives-none r = record { stands = refl; odometer = omega arith; price = refl; charge = refl }

  Drives-more :
      (r m robot : Robot) (next : Position) (driven : List Position)
      → HasMoved r m next
      → Drives m robot driven
      → Drives r robot (next ∷ driven)
  unfolding last_cell
  Drives-more r m robot next driven moved drives = record {
    stands = drives.stands ∙ ap (λ p. last_cell p driven) moved.arrived;
    odometer = omega (arith, drives.odometer, moved.distance);
    price = drives.price ∙ moved.same_drain;
    charge =
        drives.charge
        ∙ ap (λ d. charge_after (length driven) d m.battery_level) moved.same_drain
        ∙ ap (λ b. charge_after (length driven) r.battery_drain_per_move b) moved.price;
  }

  walk_nothing :
      (r : Robot) (progress : Progress) (s : Simulator)
      → IsSound s
      → lookup robot_id s.robots ≡ some r
      → Walked r [] progress s
  unfolding walk
  walk_nothing r progress s sound known = record {
    outcome = progress;
    after = s;
    robot = r;
    driven = [];
    left = [];
    split = refl;
    returns = refl;
    steps = omega arith;
    path = sym (append-nil progress.completed_path);
    sound = sound;
    known = known;
    drives = Drives-none r;
    ended = inl (refl, refl);
  }

  walk_stopped :
      (r : Robot) (next : Position) (rest : List Position) (progress : Progress) (s : Simulator)
      (reason : MoveReason)
      → IsSound s
      → validate_move robot_id next s ≡ ok (some reason)
      → Simulator.move_robot robot_id next s
        ≡ (err Error.invalid_move, put_robot robot_id (record r { last_error = true }) s)
      → Walked r (next ∷ rest) progress s
  unfolding last_cell
  walk_stopped r next rest progress s reason sound invalid refused =
      let blamed = record r { last_error = true } in
      record {
        outcome = record progress { refused = true };
        after = put_robot robot_id blamed s;
        robot = blamed;
        driven = [];
        left = next ∷ rest;
        split = refl;
        returns = walk_refused next rest progress s (put_robot robot_id blamed s) refused;
        steps = omega arith;
        path = sym (append-nil progress.completed_path);
        sound = subst (λ q. IsSound q.1) refused (move_robot-IsSound robot_id next s sound);
        known = lookup-insert_self robot_id blamed s.robots;
        drives = record { stands = refl; odometer = omega arith; price = refl; charge = refl };
        ended = inr (
          refl,
          record {
            next = next;
            more = rest;
            is_left = refl;
            before = s;
            reason = reason;
            invalid = invalid;
            blamed = refl;
          },
        );
      }

  walk_on :
      (r : Robot) (next : Position) (rest : List Position) (progress : Progress) (s : Simulator)
      (there : Arrives robot_id next s r)
      → Walked there.moved rest
          (one_more there.moved.position progress)
          (put_robot robot_id there.moved s)
      → Walked r (next ∷ rest) progress s
  walk_on r next rest progress s there later = record {
    outcome = later.outcome;
    after = later.after;
    robot = later.robot;
    driven = next ∷ later.driven;
    left = later.left;
    split = ap (λ xs. next ∷ xs) later.split;
    returns =
        walk_moved next rest progress s (put_robot robot_id there.moved s) there.moved there.returns
          (lookup-insert_self robot_id there.moved s.robots)
        ∙ later.returns;
    steps = omega (arith, later.steps);
    path =
        later.path
        ∙ append-one progress.completed_path later.driven there.moved.position
        ∙ ap (λ p. progress.completed_path ++ (p ∷ later.driven)) there.has_moved.arrived;
    sound = later.sound;
    known = later.known;
    drives = Drives-more r there.moved later.robot next later.driven there.has_moved later.drives;
    ended = later.ended;
  }

  pub walk-Walked :
      (r : Robot) (rest : List Position) (progress : Progress) (s : Simulator)
      → IsSound s
      → lookup robot_id s.robots ≡ some r
      → Walked r rest progress s
  walk-Walked r [] progress s sound known = walk_nothing r progress s sound known
  walk-Walked r (next ∷ rest) progress s sound known =
      elim (move_robot_outcome robot_id next s sound) [
        | inl (absent, _) ↦ absurd (ground (arith, known, absent))
        | inr (q, found, inl (reason, invalid, refused)) ↦
            let is_r : q ≡ r = ground (arith, known, found) in
            walk_stopped r next rest progress s reason sound invalid (rw (← is_r) refused)
        | inr (q, found, inr (_, there)) ↦
            let is_r : q ≡ r = ground (arith, known, found) in
            let here : Arrives robot_id next s r =
              subst (λ x. Arrives robot_id next s x) is_r there in
            let s' = put_robot robot_id here.moved s in
            walk_on r next rest progress s here (
              walk-Walked here.moved rest (one_more here.moved.position progress) s'
                (subst (λ x. IsSound x.1) here.returns (move_robot-IsSound robot_id next s sound))
                (lookup-insert_self robot_id here.moved s.robots))
      ]
