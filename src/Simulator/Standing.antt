-- ===== src/Simulator/Standing.antt =====
-- Calls that place, move or charge a robot keep the fleet sound.
use multi_robot_fulfillment.Common.{
  ℕ, ◌≡◌, ◌⊎◌, inl, inr, refl, true, false, none, some, arith, nat_eq, Option-cases, Result-cases,
  ◌∙◌,
}
use multi_robot_fulfillment.Common.Int.{ℤ}
use multi_robot_fulfillment.Common.Dict.{lookup}
use multi_robot_fulfillment.Geometry.{Position, position_eq}
use multi_robot_fulfillment.Warehouse
use multi_robot_fulfillment.Warehouse.{Warehouse}
use multi_robot_fulfillment.Robot
use multi_robot_fulfillment.Robot.{Robot, RobotStatus}
use multi_robot_fulfillment.Robot.Battery.{IsSane, IsSane-same, recharge-IsSane}
use multi_robot_fulfillment.Simulator
use multi_robot_fulfillment.Simulator.{
  Simulator, first_at, occupied, put_robot, get_robot, release_task, release_robot,
}
use multi_robot_fulfillment.Simulator.Fleet.{first_at-none, insert-IsFleet, update-IsFleet}
use multi_robot_fulfillment.Simulator.Moves.{IsSound, move_robot_outcome}

-- Only the tasks differ.
pub record SameFloor (s s' : Simulator) : Type 0 where
  pub warehouse : s'.warehouse ≡ s.warehouse
  pub robots : s'.robots ≡ s.robots

pub SameFloor-IsSound : (s s' : Simulator) → SameFloor s s' → IsSound s → IsSound s'
SameFloor-IsSound s s' same sound = record {
  backed = rw same.warehouse sound.backed;
  fleet = rw (same.warehouse, same.robots) sound.fleet;
}

pub put_robot-IsSound :
    (i : ℕ) (old r : Robot) (s : Simulator)
    → IsSound s
    → lookup i s.robots ≡ some old
    → r.robot_id ≡ old.robot_id
    → r.position ≡ old.position
    → IsSane r
    → IsSound (put_robot i r s)
put_robot-IsSound i old r s sound known name cell sane = record {
  backed = sound.backed;
  fleet = update-IsFleet s.warehouse s.robots sound.fleet i old r known name cell sane;
}

add_robot_cases :
    (r : Robot) (s : Simulator)
    → ((Simulator.add_robot r s).1 ≡ s)
      ⊎ ((Simulator.add_robot r s).1 ≡ put_robot r.robot_id r s)
        × (Warehouse.is_traversable s.warehouse r.position ≡ true)
        × (first_at r.position s.robots ≡ none)
unfolding Simulator.add_robot
add_robot_cases r s = ground arith

pub add_robot-IsSound :
    (r : Robot) (s : Simulator) → IsSane r → IsSound s → IsSound (Simulator.add_robot r s).1
add_robot-IsSound r s sane sound = elim (add_robot_cases r s) [
  | inl same ↦ rw same sound
  | inr (added, free, nobody) ↦ rw added (record {
    backed = sound.backed;
    fleet =
        insert-IsFleet s.warehouse s.robots sound.fleet r.robot_id r refl sane free
          (λ j q other l. first_at-none r.position s.robots j q nobody l);
  })
]

pub move_robot-IsSound :
    (i : ℕ) (p : Position) (s : Simulator) → IsSound s → IsSound (Simulator.move_robot i p s).1
move_robot-IsSound i p s sound = elim (move_robot_outcome i p s sound) [
  | inl (_, same) ↦ rw same sound
  | inr (r, known, inl (_, _, refused)) ↦
      let blamed = record r { last_error = true } in
      let sane = IsSane-same r (sound.fleet.sane i r known) blamed refl refl refl refl in
      rw refused (put_robot-IsSound i r blamed s sound known refl refl sane)
  | inr (r, known, inr (_, there)) ↦
      let cell = there.has_moved.arrived in
      let name : there.moved.robot_id ≡ i = there.has_moved.same_id ∙ sound.fleet.named i r known in
      rw there.returns (record {
        backed = sound.backed;
        fleet =
            insert-IsFleet s.warehouse s.robots sound.fleet i there.moved name there.sane
              (rw cell there.free)
              (λ j q other l here. first_at-none p s.robots j q there.nobody l (here ∙ cell));
      })
]

charge_robot_cases :
    (i : ℕ) (amount : ℤ) (s : Simulator)
    → ((Simulator.charge_robot i amount s).1 ≡ s)
      ⊎ ((r : Robot) × (lookup i s.robots ≡ some r)
          × ((Simulator.charge_robot i amount s).1
              ≡ put_robot i (Robot.recharge amount (Robot.set_status RobotStatus.charging r)).1 s))
unfolding Simulator.charge_robot get_robot
charge_robot_cases i amount s = elim (Option-cases (lookup i s.robots)) [
  | inl absent ↦ inl (ground arith)
  | inr (r, known) ↦ elim (Result-cases (Warehouse.is_charging_station s.warehouse r.position)) [
    | inr (e, h) ↦ inl (ground arith)
    | inl (true, h) ↦ inr (r, known, ground arith)
    | inl (false, h) ↦ inl (ground arith)
  ]
]

-- A recharge changes the charge alone.
recharge_keeps :
    (amount : ℤ) (r : Robot)
    → ((Robot.recharge amount r).1.robot_id ≡ r.robot_id)
      × ((Robot.recharge amount r).1.position ≡ r.position)
unfolding Robot.recharge
recharge_keeps amount r = (ground arith, ground arith)

pub charge_robot-IsSound :
    (i : ℕ) (amount : ℤ) (s : Simulator) → IsSound s → IsSound (Simulator.charge_robot i amount s).1
unfolding Robot.set_status
charge_robot-IsSound i amount s sound = elim (charge_robot_cases i amount s) [
  | inl same ↦ rw same sound
  | inr (r, known, charged) ↦
      let plugged = record r { status = RobotStatus.charging } in
      let sane = IsSane-same r (sound.fleet.sane i r known) plugged refl refl refl refl in
      let (name, cell) = recharge_keeps amount plugged in
      rw charged (
        put_robot-IsSound i r (Robot.recharge amount plugged).1 s sound known name cell
          (recharge-IsSane plugged sane amount))
]
