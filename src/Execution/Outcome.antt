-- ===== src/Execution/Outcome.antt =====
-- Every way in which `execute` of robotics/execution/route_executor.py ends.
use multi_robot_fulfillment.Common.{ℕ, ◌≡◌, ◌⊎◌, inl, inr, refl, some, List, arith, nat_eq}
use multi_robot_fulfillment.Common.Dict.{lookup}
use multi_robot_fulfillment.Geometry.{Position, position_eq}
use multi_robot_fulfillment.Robot.{Robot}
use multi_robot_fulfillment.Simulator.{Simulator, get_robot}
use multi_robot_fulfillment.Execution.{
  Route, StopReason, Resolved, resolve_path, execute_path, execute,
}

pub Resolved-cases :
    (r : Resolved)
    → ((path : List Position) × (r ≡ Resolved.ready path))
      ⊎ ((reason : StopReason) × (r ≡ Resolved.rejection reason))
Resolved-cases (Resolved.ready path) = inl (path, refl)
Resolved-cases (Resolved.rejection reason) = inr (reason, refl)

module _ (robot_id : ℕ) (s : Simulator) where
  pub execute_resolved :
      (route : Route) (r : Robot) (path : List Position)
      → lookup robot_id s.robots ≡ some r
      → resolve_path route ≡ Resolved.ready path
      → execute robot_id route s ≡ execute_path r robot_id path s
  unfolding execute get_robot
  execute_resolved route r path known h = ground arith
