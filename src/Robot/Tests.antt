-- ===== src/Robot/Tests.antt =====
-- A robot with a charge of 40.0, of which a move costs 3.0.
use multi_robot_fulfillment.Common.{
  ℕ, ◌≡◌, ◌⊎◌, refl, true, false, some, none, List, [], ◌∷◌, ok, err, Error,
}
use multi_robot_fulfillment.Common.Int
use multi_robot_fulfillment.Common.Int.{pos, negsuc, ltb_ℤ}
use multi_robot_fulfillment.Common.Float
use multi_robot_fulfillment.Common.Float.{◌+f◌, whole, doubled, round, round_digits, round_last}
use multi_robot_fulfillment.Geometry.{Position, is_adjacent_to}
use multi_robot_fulfillment.Robot.{
  Robot, RobotStatus, post_init, move_to, recharge, load, unload, assign_task, clear_task,
  is_available, has_battery_for_move, can_carry, max_battery,
}
use multi_robot_fulfillment.Robot.Battery.{IsCharged, Call, after_calls, after_calls-IsCharged}
use multi_robot_fulfillment.Robot.Bookkeeping.{
  HasMoved, move_to_outcome, unload-load, assign_task_outcome,
}

abbrev cell : ℕ → ℕ → Position
cell r c = record { row = pos r; col = pos c }

abbrev porter : Robot
porter = record {
  robot_id = 7;
  position = cell 1 1;
  battery_level = whole 40;
  payload_capacity = whole 10;
  current_payload = whole 2;
  status = RobotStatus.idle;
  assigned_task_id = none;
  distance_travelled = 0;
  steps_taken = 0;
  battery_drain_per_move = whole 3;
  last_error = false;
}

porter_passes : post_init porter ≡ ok tt
unfolding post_init whole doubled
porter_passes = refl

abbrev shift : List Call
shift =
    Call.load (whole 5)
    ∷ Call.load (whole 9)
    ∷ Call.move_to (cell 1 2)
    ∷ Call.move_to (cell 5 5)
    ∷ Call.recharge (whole 90)
    ∷ Call.recharge (negsuc 0)
    ∷ Call.unload
    ∷ []

shift_ends : (after_calls shift porter).battery_level ≡ max_battery
unfolding load move_to recharge unload can_carry has_battery_for_move is_adjacent_to Int.◌+ℤ◌
    Int.◌-ℤ◌ Float.◌+f◌ Float.◌-f◌ round round_digits round_last whole doubled
shift_ends = refl

after_calls-IsCharged_example : IsCharged (after_calls shift porter)
after_calls-IsCharged_example = after_calls-IsCharged shift porter porter_passes

-- Rounding lets a load pass the check and end above the capacity: in units of 2 ^ -51, the capacity is
-- the float 11.94, the payload 3.3 and the weight 8.64.
abbrev overloaded : Robot
overloaded = record porter {
  payload_capacity = pos 26886489775401860;
  current_payload = pos 7430939385161318;
}

overload :
    ltb_ℤ (pos 26886489775401860) (load (pos 19455550390240544) overloaded).1.current_payload ≡ true
unfolding load can_carry Int.◌+ℤ◌ Int.◌-ℤ◌ Float.◌+f◌ Float.◌-f◌ round round_digits round_last
overload = refl

move_to_outcome_example :
    ((move_to (cell 1 2) porter).0 ≡ ok tt)
      × HasMoved porter (move_to (cell 1 2) porter).1 (cell 1 2)
    ⊎ ((move_to (cell 1 2) porter ≡ (err Error.invalid_move, porter))
        × ((is_adjacent_to (cell 1 1) (cell 1 2) ≡ false) ⊎ (has_battery_for_move porter ≡ false)))
move_to_outcome_example = move_to_outcome (cell 1 2) porter

unload-load_example :
    ((load (whole 5) porter).0 ≡ ok tt)
    × (unload (load (whole 5) porter).1
        ≡ (ok (whole 2 +f whole 5), record porter { current_payload = pos 0 }))
unfolding can_carry Int.◌-ℤ◌ Float.◌-f◌ round round_digits round_last whole doubled
unload-load_example = unload-load (whole 5) porter refl refl

assign_task_outcome_example :
    ((is_available porter ≡ true)
      × ((s : Robot) × (assign_task 4 porter ≡ (ok tt, s))
          × (s.assigned_task_id ≡ some 4)
          × (is_available s ≡ false)
          × (is_available (clear_task s) ≡ true)
          × (clear_task s ≡ porter)))
    ⊎ ((is_available porter ≡ false)
        × (assign_task 4 porter ≡ (err Error.simulation_error, porter)))
assign_task_outcome_example = assign_task_outcome 4 porter

-- 0.1 + 0.2 is 0.30000000000000004, in units of 2 ^ -56.
tenths : pos 7205759403792794 +f pos 14411518807585588 ≡ pos 21617278211378384
unfolding Int.◌+ℤ◌ Float.◌+f◌ round round_digits round_last
tenths = refl
