-- ===== src/Coordinator/Counts.antt =====
-- The numbers of a plan: `move_count`, `wait_count`, `makespan` of timed_path.py and the sums of
-- `summarise` of robotics/coordination/coordination_result.py.
use multi_robot_fulfillment.Common.{
  ℕ, ◌+◌, ◌≤◌, ◌≡◌, inl, inr, refl, true, none, some, Option, List, [], ◌∷◌, ◌∈◌, arith, nat_eq, ok,
  length, map, mem-map, mem-keep_if, Eq-cases, ap,
}
use multi_robot_fulfillment.Common.Int.{pos, ◌+ℤ◌}
use multi_robot_fulfillment.Common.Dict.{Dict, lookup, values, IsDict}
use multi_robot_fulfillment.Geometry.{Position, position_eq}
use multi_robot_fulfillment.Coordination.{TimedStep, TimedPath, last_step}
use multi_robot_fulfillment.Coordination.Positions.{IsTimed, IsSchedule, last-last_step}
use multi_robot_fulfillment.SpaceTime.{SpaceTimePlanner}
use multi_robot_fulfillment.SpaceTime.Reservable.{delivered-IsSchedule, last_lem}
use multi_robot_fulfillment.Coordinator.{
  CoordinationResult, Pass, planning_order, start_time, arrival_time, count_moves, count_waits,
  move_count, wait_count, makespan, sum, sum_ℤ, maximum, successful_paths, totals, validate_request,
  plan, horizon_for,
}
use multi_robot_fulfillment.Coordinator.Clear.{IsClear, Sent}
use multi_robot_fulfillment.Coordinator.Safe.{plan-Planned}

one_each :
    (s : TimedStep) (ss : List TimedStep) → count_moves (s ∷ ss) + count_waits (s ∷ ss) ≡ length ss
one_each s [] = refl
one_each s (q ∷ qs) = ground (arith, one_each q qs)

pub last-timestep :
    (s : TimedStep) (ss : List TimedStep)
    → IsTimed s ss
    → (last_step s ss).timestep ≡ s.timestep + length ss
last-timestep s [] timed = omega arith
last-timestep s (q ∷ qs) (next, timed) = omega (arith, last-timestep q qs timed)

-- The span of a schedule is its moves and its waits.
makespan-IsSchedule :
    (p : TimedPath) → IsSchedule p → makespan p ≡ pos (move_count p + wait_count p)
unfolding makespan move_count wait_count arrival_time start_time
makespan-IsSchedule p schedule =
    rw (schedule.steps, last-last_step schedule.first schedule.others)
      (ground (
        arith,
        one_each schedule.first schedule.others,
        last-timestep schedule.first schedule.others schedule.timed,
      ))

abbrev AllSchedules : List TimedPath → Type 0
AllSchedules [] = Unit
AllSchedules (p ∷ ps) = IsSchedule p × AllSchedules ps

+ℤ-pos : (a b : ℕ) → pos a +ℤ pos b ≡ pos (a + b)
unfolding ◌+ℤ◌
+ℤ-pos a b = ground arith

sum-makespan :
    (ps : List TimedPath)
    → AllSchedules ps
    → sum_ℤ (map makespan ps) ≡ pos (sum (map move_count ps) + sum (map wait_count ps))
sum-makespan [] all = refl
sum-makespan (p ∷ ps) (schedule, all) =
    rw (makespan-IsSchedule p schedule, sum-makespan ps all, +ℤ-pos) (ap pos (omega arith))

pub maximum_ge : (ns : List ℕ) (n : ℕ) → n ∈ ns → n ≤ maximum ns
maximum_ge [] n m = absurd m
maximum_ge (k ∷ ks) n m = ground (arith, maximum_ge ks n)

pub maximum_le : (ns : List ℕ) (bound : ℕ) → ((n : ℕ) → n ∈ ns → n ≤ bound) → maximum ns ≤ bound
maximum_le [] bound all = omega arith
maximum_le (k ∷ ks) bound all =
    ground (arith, all k (inl refl), maximum_le ks bound (λ n m. all n (inr m)))

pub mem-map-elim :
    (f : TimedPath → ℕ) (ps : List TimedPath) (n : ℕ)
    → n ∈ map f ps
    → (p : TimedPath) × (p ∈ ps) × (n ≡ f p)
mem-map-elim f [] n m = absurd m
mem-map-elim f (q ∷ qs) n (inl same) = (q, inl refl, same)
mem-map-elim f (q ∷ qs) n (inr m) =
    let (p, there, same) = mem-map-elim f qs n m in (p, inr there, same)

all_schedules : (ps : List TimedPath) → ((p : TimedPath) → p ∈ ps → IsSchedule p) → AllSchedules ps
all_schedules [] all = tt
all_schedules (p ∷ ps) all = (all p (inl refl), all_schedules ps (λ q m. all q (inr m)))

pub lookup_of_value :
    (p : TimedPath) (d : Dict ℕ TimedPath)
    → IsDict d
    → p ∈ values d
    → (r : ℕ) × (lookup r d ≡ some p)
lookup_of_value p [] once m = absurd m
lookup_of_value p ((k, v) ∷ d) once (inl same) = (k, ground arith)
lookup_of_value p ((k, v) ∷ d) once (inr m) =
    let (r, found) = lookup_of_value p d once.1 m in
    elim (Eq-cases r k) [
      | inl (same, _) ↦ absurd (ground (arith, once.0))
      | inr (_, test) ↦ (r, ground arith)
    ]

value_of_lookup :
    (r : ℕ) (p : TimedPath) (d : Dict ℕ TimedPath) → lookup r d ≡ some p → p ∈ values d
value_of_lookup r p [] h = ground arith
value_of_lookup r p ((k, v) ∷ d) h = ground (arith, value_of_lookup r p d)

module _ (planner : SpaceTimePlanner) (starts goals : Dict ℕ Position) (horizon : ℕ) where
  pub Sent-IsSchedule :
      (r : ℕ) (p : TimedPath) → Sent planner starts goals horizon r p → IsSchedule p
  Sent-IsSchedule r p sent =
      delivered-IsSchedule planner sent.start sent.goal sent.table r 0 horizon p sent.arrival
        sent.delivered

  Sent-in_time :
      (r : ℕ) (p : TimedPath) → Sent planner starts goals horizon r p → arrival_time p ≤ horizon
  unfolding arrival_time
  Sent-in_time r p sent =
      rw
        (last_lem planner sent.start sent.goal sent.table r 0 horizon p sent.arrival sent.delivered)
        sent.delivered.in_time

  module _ (pass : Pass) (c : IsClear planner starts goals horizon pass) where
    successful-Sent :
        (p : TimedPath)
        → p ∈ successful_paths pass.timed_paths
        → (r : ℕ) × Sent planner starts goals horizon r p
    unfolding successful_paths
    successful-Sent p m =
        let (there, success) = (mem-keep_if (λ q. q.success) (values pass.timed_paths) p).0 m in
        let (r, found) = lookup_of_value p pass.timed_paths c.once there in
        elim (c.settled r p found).1 [
          | inl (_, sent) ↦ (r, sent)
          | inr (fails, _) ↦ absurd (ground arith)
        ]

    successful_mem :
        (r : ℕ) (p : TimedPath)
        → lookup r pass.timed_paths ≡ some p
        → p.success ≡ true
        → p ∈ successful_paths pass.timed_paths
    unfolding successful_paths
    successful_mem r p found success =
        (mem-keep_if (λ q. q.success) (values pass.timed_paths) p).1
          (value_of_lookup r p pass.timed_paths found, success)

-- The numbers of a plan.
pub record IsCounted (horizon : ℕ) (result : CoordinationResult) : Type 0 where
  pub cost : result.total_space_time_cost ≡ pos (result.total_move_steps + result.total_wait_steps)
  pub latest :
      (r : ℕ) (p : TimedPath)
      → lookup r result.timed_paths ≡ some p
      → p.success ≡ true
      → arrival_time p ≤ result.makespan
  pub in_time : result.makespan ≤ horizon

-- In the plan for a request in order the total cost in space and time is the number of moves and waits of the
-- paths that were found, no such path arrives after the makespan, and the makespan is no later than
-- the horizon.
pub plan-IsCounted :
    (planner : SpaceTimePlanner) (starts goals : Dict ℕ Position) (priority_order : Option (List ℕ))
    (horizon : Option ℕ)
    → validate_request starts goals priority_order ≡ none
    → (result : CoordinationResult) × (plan planner starts goals priority_order horizon ≡ ok result)
      × IsCounted (horizon_for planner.warehouse (length starts) horizon) result
plan-IsCounted planner starts goals priority_order horizon valid =
    let (result, returns, planned, _) =
      plan-Planned planner starts goals priority_order horizon valid in
    let until = horizon_for planner.warehouse (length starts) horizon in
    let pass = planned.pass in
    let clear = planned.finishes.clear in
    let found = successful_paths pass.timed_paths in
    let sent = successful-Sent planner starts goals until pass clear in
    let counted : IsCounted until (
        totals pass.timed_paths (planning_order starts priority_order) pass.failed until
          planned.parts) =
      record {
        cost = sum-makespan found (
            all_schedules found
              (λ p m. Sent-IsSchedule planner starts goals until (sent p m).0 p (sent p m).1));
        latest = λ r p known success. maximum_ge (map arrival_time found) (arrival_time p) (
            mem-map arrival_time found p
              (successful_mem planner starts goals until pass clear r p known success));
        in_time = maximum_le (map arrival_time found) until (λ n m.
            let (p, there, same) = mem-map-elim arrival_time found n m in
            let bound =
              Sent-in_time planner starts goals until (sent p there).0 p (sent p there).1 in
            omega arith);
      } in
    (result, returns, rw planned.is_totals counted)
