-- ===== src/Simulator/Moves.antt =====
-- One move through the simulator: `validate_move` and `move_robot` of robotics/simulation/simulator.py.
use multi_robot_fulfillment.Common.{
  ℕ, ◌≡◌, ◌⊎◌, inl, inr, true, false, none, some, arith, nat_eq, ok, err, Error, Option-cases,
}
use multi_robot_fulfillment.Common.Dict.{lookup}
use multi_robot_fulfillment.Geometry.{Position, position_eq, is_adjacent_to}
use multi_robot_fulfillment.Grid
use multi_robot_fulfillment.Warehouse
use multi_robot_fulfillment.Warehouse.{Warehouse}
use multi_robot_fulfillment.Warehouse.Blocking.{IsBacked}
use multi_robot_fulfillment.Robot
use multi_robot_fulfillment.Robot.{Robot, has_battery_for_move}
use multi_robot_fulfillment.Robot.Bookkeeping.{HasMoved, move_to_outcome}
use multi_robot_fulfillment.Robot.Battery.{IsSane, move_to-IsSane}
use multi_robot_fulfillment.Simulator
use multi_robot_fulfillment.Simulator.{
  Simulator, MoveReason, first_at, occupied, put_robot, move_reason, get_robot, robot_call,
}
use multi_robot_fulfillment.Simulator.Fleet.{IsFleet}

-- The state that the simulator keeps: a warehouse whose blocked cells are those of its obstacles, and
-- a fleet on its floor.
pub record IsSound (s : Simulator) : Type 0 where
  pub backed : IsBacked s.warehouse
  pub fleet : IsFleet s.warehouse s.robots

-- With the registry of obstacles behind the grid, a cell that neither kind blocks is free.
pub unblocked-is_traversable :
    (w : Warehouse) (p : Position)
    → IsBacked w
    → Warehouse.in_bounds w p ≡ true
    → Warehouse.is_blocked_by_static w p ≡ false
    → Warehouse.is_blocked_by_dynamic w p ≡ false
    → Warehouse.is_traversable w p ≡ true
unfolding Warehouse.is_traversable Warehouse.in_bounds Grid.is_traversable
unblocked-is_traversable w p backed inside no_static no_dynamic = ground (arith, backed.backed p)

-- What `validate_move` has made sure of when it gives no reason.
pub record IsClear (s : Simulator) (r : Robot) (destination : Position) : Type 0 where
  pub inside : Warehouse.in_bounds s.warehouse destination ≡ true
  pub near : is_adjacent_to r.position destination ≡ true
  pub no_static : Warehouse.is_blocked_by_static s.warehouse destination ≡ false
  pub no_dynamic : Warehouse.is_blocked_by_dynamic s.warehouse destination ≡ false
  pub nobody : first_at destination s.robots ≡ none
  pub enough : has_battery_for_move r ≡ true

pub move_reason-IsClear :
    (s : Simulator) (r : Robot) (destination : Position)
    → move_reason r destination s ≡ none
    → IsClear s r destination
unfolding move_reason
move_reason-IsClear s r destination h = record {
  inside = ground arith;
  near = ground arith;
  no_static = ground arith;
  no_dynamic = ground arith;
  nobody = ground arith;
  enough = ground arith;
}

module _ (robot_id : ℕ) (destination : Position) (s : Simulator) where
  unknown_robot :
      lookup robot_id s.robots ≡ none
      → Simulator.move_robot robot_id destination s ≡ (err Error.simulation_error, s)
  unfolding Simulator.move_robot get_robot
  unknown_robot h = ground arith

  refused_move :
      (r : Robot) (reason : MoveReason)
      → lookup robot_id s.robots ≡ some r
      → move_reason r destination s ≡ some reason
      → Simulator.move_robot robot_id destination s
        ≡ (err Error.invalid_move, put_robot robot_id (record r { last_error = true }) s)
  unfolding Simulator.move_robot get_robot Simulator.validate_move
  refused_move r reason known h = ground arith

  legal_move :
      (r : Robot)
      → lookup robot_id s.robots ≡ some r
      → move_reason r destination s ≡ none
      → Simulator.move_robot robot_id destination s
        ≡ robot_call robot_id r (Robot.move_to destination) s
  unfolding Simulator.move_robot get_robot Simulator.validate_move
  legal_move r known h = ground arith

  -- The robot after a legal move: it has moved, to a free cell where nobody stood.
  pub record Arrives (r : Robot) : Type 0 where
    pub moved : Robot
    pub has_moved : HasMoved r moved destination
    pub sane : IsSane moved
    pub free : Warehouse.is_traversable s.warehouse destination ≡ true
    pub nobody : first_at destination s.robots ≡ none
    pub returns : Simulator.move_robot robot_id destination s ≡ (ok tt, put_robot robot_id moved s)

  pub arrives :
      (r : Robot)
      → IsSound s
      → lookup robot_id s.robots ≡ some r
      → move_reason r destination s ≡ none
      → Arrives r
  arrives r sound known h =
      let clear = move_reason-IsClear s r destination h in
      elim (move_to_outcome destination r) [
        | inl (done, moved) ↦ record {
          moved = (Robot.move_to destination r).1;
          has_moved = moved;
          sane = move_to-IsSane r (sound.fleet.sane robot_id r known) destination;
          free =
              unblocked-is_traversable s.warehouse destination sound.backed clear.inside
                clear.no_static clear.no_dynamic;
          nobody = clear.nobody;
          returns = ground (arith, legal_move r known h);
        }
        | inr (_, inl far) ↦ absurd (ground (arith, clear.near))
        | inr (_, inr empty) ↦ absurd (ground (arith, clear.enough))
      ]

  -- In a sound state `move_robot` does one of three things. For a name that is not registered it
  -- raises SimulationError and changes nothing. When `validate_move` gives a reason it raises
  -- InvalidMoveError and changes the robot's last error and nothing else. When there is no reason
  -- the move happens, never refused by the robot itself: the robot stands on the adjacent cell, which
  -- was free and held nobody, and has paid for one move.
  pub move_robot_outcome :
      IsSound s
      → (lookup robot_id s.robots ≡ none)
          × (Simulator.move_robot robot_id destination s ≡ (err Error.simulation_error, s))
        ⊎ ((r : Robot) × (lookup robot_id s.robots ≡ some r)
            × (((reason : MoveReason) × (Simulator.validate_move robot_id destination s
                    ≡ ok (some reason))
                  × (Simulator.move_robot robot_id destination s ≡ (
                    err Error.invalid_move,
                    put_robot robot_id (record r { last_error = true }) s,
                  )))
                ⊎ ((Simulator.validate_move robot_id destination s ≡ ok none) × Arrives r)))
  unfolding Simulator.validate_move get_robot
  move_robot_outcome sound = elim (Option-cases (lookup robot_id s.robots)) [
    | inl absent ↦ inl (absent, unknown_robot absent)
    | inr (r, known) ↦ elim (Option-cases (move_reason r destination s)) [
      | inr (reason, h) ↦ inr (r, known, inl (reason, ground arith, refused_move r reason known h))
      | inl h ↦ inr (r, known, inr (ground arith, arrives r sound known h))
    ]
  ]
