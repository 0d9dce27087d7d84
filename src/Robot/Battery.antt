-- ===== src/Robot/Battery.antt =====
-- Charge, payload and movement of a robot: robotics/robots/robot.py.
use multi_robot_fulfillment.Common.{ℕ, ◌≡◌, refl, List, [], ◌∷◌, arith, ok}
use multi_robot_fulfillment.Common.Int.{ℤ, pos, ◌≤ℤ◌}
use multi_robot_fulfillment.Common.Float.{round-whole, whole_low, +f_low, -f_high}
use multi_robot_fulfillment.Geometry.{Position}
use multi_robot_fulfillment.Robot
use multi_robot_fulfillment.Robot.{
  Robot, RobotStatus, max_battery, min_battery, post_init, has_battery_for_move, can_carry,
}

-- A charge from 0 to 100, and nothing negative.
pub record IsCharged (r : Robot) : Type 0 where
  pub charge_low : pos 0 ≤ℤ r.battery_level
  pub charge_high : r.battery_level ≤ℤ max_battery
  pub payload_low : pos 0 ≤ℤ r.current_payload
  pub drain_low : pos 0 ≤ℤ r.battery_drain_per_move

-- What the checks of the constructor promise.
pub record IsSane (r : Robot) : Type 0 where
  pub charged : IsCharged r
  pub payload_high : r.current_payload ≤ℤ r.payload_capacity

pub post_init-IsSane : (r : Robot) → post_init r ≡ ok tt → IsSane r
unfolding post_init
post_init-IsSane r h = record {
  charged = record {
    charge_low = ground arith;
    charge_high = ground arith;
    payload_low = ground arith;
    drain_low = ground arith;
  };
  payload_high = ground arith;
}

-- A method call on a robot.
pub data Call : Type 0 where
  move_to : Position → Call
  recharge : ℤ → Call
  load : ℤ → Call
  unload clear_task : Call
  set_status : RobotStatus → Call
  assign_task : ℕ → Call

abbrev pub after_call : Call → Robot → Robot
after_call (Call.move_to p) r = (Robot.move_to p r).1
after_call (Call.recharge amount) r = (Robot.recharge amount r).1
after_call (Call.load weight) r = (Robot.load weight r).1
after_call Call.unload r = (Robot.unload r).1
after_call Call.clear_task r = Robot.clear_task r
after_call (Call.set_status status) r = Robot.set_status status r
after_call (Call.assign_task t) r = (Robot.assign_task t r).1

abbrev pub after_calls : List Call → Robot → Robot
after_calls [] r = r
after_calls (c ∷ cs) r = after_calls cs (after_call c r)

module _ (r : Robot) (charged : IsCharged r) where
  pub move_to-IsCharged : (p : Position) → IsCharged (Robot.move_to p r).1
  unfolding Robot.move_to has_battery_for_move
  move_to-IsCharged p =
      let price = r.battery_drain_per_move in
      let below =
        -f_high r.battery_level price max_battery (round-whole 100 (omega arith))
          charged.charge_high charged.drain_low in
      record {
        charge_low = ground (arith, charged.charge_low);
        charge_high = ground (arith, below, charged.charge_high, whole_low 100);
        payload_low = ground (arith, charged.payload_low);
        drain_low = ground (arith, charged.drain_low);
      }

  pub recharge-IsCharged : (amount : ℤ) → IsCharged (Robot.recharge amount r).1
  unfolding Robot.recharge
  recharge-IsCharged amount =
      let above = +f_low r.battery_level amount charged.charge_low in
      record {
        charge_low = ground (arith, above, charged.charge_low, whole_low 100);
        charge_high = ground (arith, charged.charge_high);
        payload_low = ground (arith, charged.payload_low);
        drain_low = ground (arith, charged.drain_low);
      }

  load-IsCharged : (weight : ℤ) → IsCharged (Robot.load weight r).1
  unfolding Robot.load
  load-IsCharged weight =
      let above = +f_low r.current_payload weight charged.payload_low in
      record {
        charge_low = ground (arith, charged.charge_low);
        charge_high = ground (arith, charged.charge_high);
        payload_low = ground (arith, above, charged.payload_low);
        drain_low = ground (arith, charged.drain_low);
      }

  unload-IsCharged : IsCharged (Robot.unload r).1
  unfolding Robot.unload
  unload-IsCharged = record {
    charge_low = charged.charge_low;
    charge_high = charged.charge_high;
    payload_low = omega arith;
    drain_low = charged.drain_low;
  }

  -- A change of the status, the task or the diagnostics touches neither charge nor payload.
  pub IsCharged-same :
      (s : Robot)
      → s.battery_level ≡ r.battery_level
      → s.current_payload ≡ r.current_payload
      → s.battery_drain_per_move ≡ r.battery_drain_per_move
      → IsCharged s
  IsCharged-same s b p d = record {
    charge_low = rw b charged.charge_low;
    charge_high = rw b charged.charge_high;
    payload_low = rw p charged.payload_low;
    drain_low = rw d charged.drain_low;
  }

  assign_task-IsCharged : (t : ℕ) → IsCharged (Robot.assign_task t r).1
  unfolding Robot.assign_task
  assign_task-IsCharged t =
      IsCharged-same (Robot.assign_task t r).1 (ground arith) (ground arith) (ground arith)

  clear_task-IsCharged : IsCharged (Robot.clear_task r)
  unfolding Robot.clear_task
  clear_task-IsCharged = IsCharged-same (Robot.clear_task r) refl refl refl

  set_status-IsCharged : (status : RobotStatus) → IsCharged (Robot.set_status status r)
  unfolding Robot.set_status
  set_status-IsCharged status = IsCharged-same (Robot.set_status status r) refl refl refl

-- Calls that leave the payload alone.
module _ (r : Robot) (sane : IsSane r) where
  pub move_to-IsSane : (p : Position) → IsSane (Robot.move_to p r).1
  unfolding Robot.move_to
  move_to-IsSane p = record {
    charged = move_to-IsCharged r sane.charged p;
    payload_high = ground (arith, sane.payload_high);
  }

  pub recharge-IsSane : (amount : ℤ) → IsSane (Robot.recharge amount r).1
  unfolding Robot.recharge
  recharge-IsSane amount = record {
    charged = recharge-IsCharged r sane.charged amount;
    payload_high = ground (arith, sane.payload_high);
  }

  pub IsSane-same :
      (s : Robot)
      → s.battery_level ≡ r.battery_level
      → s.payload_capacity ≡ r.payload_capacity
      → s.current_payload ≡ r.current_payload
      → s.battery_drain_per_move ≡ r.battery_drain_per_move
      → IsSane s
  IsSane-same s b c p d = record {
    charged = IsCharged-same r sane.charged s b p d;
    payload_high = rw (c, p) sane.payload_high;
  }

  pub clear_task-IsSane : IsSane (Robot.clear_task r)
  unfolding Robot.clear_task
  clear_task-IsSane = IsSane-same (Robot.clear_task r) refl refl refl refl

after_call-IsCharged : (c : Call) (r : Robot) → IsCharged r → IsCharged (after_call c r)
after_call-IsCharged (Call.move_to p) r charged = move_to-IsCharged r charged p
after_call-IsCharged (Call.recharge amount) r charged = recharge-IsCharged r charged amount
after_call-IsCharged (Call.load weight) r charged = load-IsCharged r charged weight
after_call-IsCharged Call.unload r charged = unload-IsCharged r charged
after_call-IsCharged Call.clear_task r charged = clear_task-IsCharged r charged
after_call-IsCharged (Call.set_status status) r charged = set_status-IsCharged r charged status
after_call-IsCharged (Call.assign_task t) r charged = assign_task-IsCharged r charged t

keep-IsCharged : (cs : List Call) (r : Robot) → IsCharged r → IsCharged (after_calls cs r)
keep-IsCharged [] r charged = charged
keep-IsCharged (c ∷ cs) r charged =
    keep-IsCharged cs (after_call c r) (after_call-IsCharged c r charged)

-- After any sequence of method calls, those that raise included, and with every rounding of the floats,
-- a robot that passed the checks of its constructor has a charge from 0 to 100, and neither its
-- payload nor its price of a move is negative.
pub after_calls-IsCharged :
    (cs : List Call) (r : Robot) → post_init r ≡ ok tt → IsCharged (after_calls cs r)
after_calls-IsCharged cs r h = keep-IsCharged cs r (post_init-IsSane r h).charged
