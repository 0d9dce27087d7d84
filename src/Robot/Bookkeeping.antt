-- ===== src/Robot/Bookkeeping.antt =====
-- The outcome of each method of robotics/robots/robot.py, on every branch.
use multi_robot_fulfillment.Common.{
  ℕ, ◌+◌, ◌≡◌, ◌⊎◌, inl, inr, refl, true, false, none, some, arith, ok, err, Error, Bool-cases,
}
use multi_robot_fulfillment.Common.Int.{ℤ, pos, ◌≤ℤ◌, ltb_ℤ, max_ℤ}
use multi_robot_fulfillment.Common.Float.{◌+f◌, ◌-f◌, -f_low}
use multi_robot_fulfillment.Geometry.{Position, is_adjacent_to, move_cost}
use multi_robot_fulfillment.Robot
use multi_robot_fulfillment.Robot.{
  Robot, RobotStatus, max_battery, min_battery, has_battery_for_move, can_carry, is_available,
}

-- The clamp at zero does nothing when the price can be paid.
paid : (b d : ℤ) → d ≤ℤ b → max_ℤ min_battery (b -f d) ≡ b -f d
paid b d enough = ground (arith, -f_low b d enough)

was_idle :
    (r : Robot)
    → is_available r ≡ true
    → (r.status ≡ RobotStatus.idle) × (r.assigned_task_id ≡ none)
unfolding is_available
was_idle r h = (ground arith, ground arith)

-- One move was made: one cell, one step, one unit of distance, and the full price of the move.
pub record HasMoved (r s : Robot) (destination : Position) : Type 0 where
  pub near : is_adjacent_to r.position destination ≡ true
  pub arrived : s.position ≡ destination
  pub price : s.battery_level ≡ r.battery_level -f r.battery_drain_per_move
  pub steps : s.steps_taken ≡ r.steps_taken + 1
  pub distance : s.distance_travelled ≡ r.distance_travelled + move_cost
  pub status : s.status ≡ RobotStatus.moving
  pub no_error : s.last_error ≡ false
  pub same_task : s.assigned_task_id ≡ r.assigned_task_id
  pub same_payload : s.current_payload ≡ r.current_payload
  pub same_id : s.robot_id ≡ r.robot_id
  pub same_drain : s.battery_drain_per_move ≡ r.battery_drain_per_move

-- Every robot either moves to the cell and pays the whole price, the rounded difference, so that the
-- clamp at zero never hides a debt; or `move_to` raises InvalidMoveError, the robot is the same, and
-- the cell is not adjacent or the charge does not pay.
pub move_to_outcome :
    (destination : Position) (r : Robot)
    → ((Robot.move_to destination r).0 ≡ ok tt)
        × HasMoved r (Robot.move_to destination r).1 destination
      ⊎ ((Robot.move_to destination r ≡ (err Error.invalid_move, r))
          × ((is_adjacent_to r.position destination ≡ false) ⊎ (has_battery_for_move r ≡ false)))
unfolding Robot.move_to has_battery_for_move
move_to_outcome destination r = elim (Bool-cases (is_adjacent_to r.position destination)) [
  | inr far ↦ inr (ground arith, inl far)
  | inl near ↦ elim (Bool-cases (has_battery_for_move r)) [
    | inr empty ↦ inr (ground arith, inr empty)
    | inl enough ↦ inl (
      ground arith,
      record {
        near = near;
        arrived = ground arith;
        price = ground (arith, paid r.battery_level r.battery_drain_per_move);
        steps = ground arith;
        distance = ground arith;
        status = ground arith;
        no_error = ground arith;
        same_task = ground arith;
        same_payload = ground arith;
        same_id = ground arith;
        same_drain = ground arith;
      },
    )
  ]
]

-- What fits is loaded and all of it is put down again: a load of a weight that is not negative
-- and that the robot can carry, followed by an unload, returns the sum and leaves the robot empty.
pub unload-load :
    (weight : ℤ) (r : Robot)
    → ltb_ℤ weight (pos 0) ≡ false
    → can_carry weight r ≡ true
    → ((Robot.load weight r).0 ≡ ok tt)
      × (Robot.unload (Robot.load weight r).1
          ≡ (ok (r.current_payload +f weight), record r { current_payload = pos 0 }))
unfolding Robot.load Robot.unload
unload-load weight r h fits = (ground arith, ground arith)

-- A task is taken by an available robot alone, which is available no longer; when the task is
-- cleared it is. Any other robot raises SimulationError and stays as it is.
pub assign_task_outcome :
    (task_id : ℕ) (r : Robot)
    → ((is_available r ≡ true)
        × ((s : Robot) × (Robot.assign_task task_id r ≡ (ok tt, s))
            × (s.assigned_task_id ≡ some task_id)
            × (is_available s ≡ false)
            × (is_available (Robot.clear_task s) ≡ true)
            × (Robot.clear_task s ≡ r)))
      ⊎ ((is_available r ≡ false) × (Robot.assign_task task_id r ≡ (err Error.simulation_error, r)))
unfolding Robot.assign_task Robot.clear_task is_available
assign_task_outcome task_id r = elim (Bool-cases (is_available r)) [
  | inr busy ↦ inr (busy, ground arith)
  | inl free ↦
      let taken = record r { assigned_task_id = some task_id; status = RobotStatus.assigned } in
      inl (free, (taken, ground arith, refl, refl, refl, ground (arith, was_idle r free)))
]
