-- ===== src/Conflicts/Passes.antt =====
-- The plans of coordinator.py pass the independent check of conflicts.py in robotics/coordination.
use multi_robot_fulfillment.Common.{
  mem-map, ℕ, ◌≤◌, ◌≡◌, inl, inr, refl, Bool, true, Option, none, some, List, [], ◌∷◌, ◌∈◌, arith,
  nat_eq, ok, map, keep_if, mem-keep_if, length, Eq-cases, Bool-cases, sym, subst, ◌∙◌,
}
use multi_robot_fulfillment.Common.Dict.{Dict, lookup, values, IsDict}
use multi_robot_fulfillment.Geometry.{Position, position_eq}
use multi_robot_fulfillment.Warehouse.{Warehouse}
use multi_robot_fulfillment.Coordination.{TimedPath}
use multi_robot_fulfillment.SpaceTime.{SpaceTimePlanner}
use multi_robot_fulfillment.Coordinator.{
  CoordinationResult, Pass, start_time, arrival_time, maximum, successful_paths, validate_request,
  plan, horizon_for,
}
use multi_robot_fulfillment.Coordinator.Clear.{IsClear, Sent}
use multi_robot_fulfillment.Coordinator.Counts.{
  lookup_of_value, maximum_ge, maximum_le, mem-map-elim,
}
use multi_robot_fulfillment.Coordinator.Safe.{plan-Planned}
use multi_robot_fulfillment.Conflicts.{
  step_problems, path_problems, cross_problems, problems_of, minimum, find_coordination_problems,
  is_conflict_free,
}
use multi_robot_fulfillment.Conflicts.Sent.{
  has_steps, sent_located, sent_moved, is_last, arrives, sent_parked, sent_steps-nil,
}
use multi_robot_fulfillment.Conflicts.Fleet.{IsFleet, OneEach, cross_problems-nil}

module _ (planner : SpaceTimePlanner) (starts goals : Dict ℕ Position) (limit : ℕ) where
  module _ (pass : Pass) (c : IsClear planner starts goals limit pass) where
    abbrev all : List TimedPath
    all = successful_paths pass.timed_paths

    -- A successful path of the pass.
    record Entry (p : TimedPath) : Type 0 where
      pub robot : ℕ
      pub known : lookup robot pass.timed_paths ≡ some p
      pub name : p.robot_id ≡ robot
      pub success : p.success ≡ true
      pub sent : Sent planner starts goals limit robot p

    entry_of : (p : TimedPath) → p ∈ all → Entry p
    unfolding successful_paths
    entry_of p m =
        let (there, success) = (mem-keep_if (λ q. q.success) (values pass.timed_paths) p).0 m in
        let (r, known) = lookup_of_value p pass.timed_paths c.once there in
        let (name, settled) = c.settled r p known in
        elim settled [
          | inl (_, sent) ↦ record {
            robot = r;
            known = known;
            name = name;
            success = success;
            sent = sent;
          }
          | inr (fails, _) ↦ absurd (ground arith)
        ]

    pass-IsFleet : IsFleet all limit
    pass-IsFleet = record {
      located = λ p t m soon.
          let e = entry_of p m in sent_located planner starts goals limit e.robot p e.sent t soon;
      moved = λ p t a b m soon says says' ne.
          let e = entry_of p m in
          sent_moved planner starts goals limit e.robot p e.sent t a b says says' ne;
      parked = λ p m.
          let e = entry_of p m in
          (
            record { position = e.sent.goal; timestep = e.sent.arrival },
            is_last planner starts goals limit e.robot p e.sent,
            sent_parked planner starts goals limit e.robot p e.sent,
          );
      apart = λ p q cell t m m' ne here there.
          let e = entry_of p m in
          let e' = entry_of q m' in
          let first = (c.reserved e.robot p e.known e.success).cells cell t here in
          let second = (c.reserved e'.robot q e'.known e'.success).cells cell t there in
          ne (ground arith);
      no_swap = λ p q m m' ne.
          let e = entry_of p m in
          let e' = entry_of q m' in
          c.no_swap e.robot e'.robot p q (λ same. ne (e.name ∙ (same ∙ sym e'.name))) e.known
            e'.known e.success e'.success;
    }

    sent_start : (p : TimedPath) → p ∈ all → start_time p ≡ 0
    unfolding start_time
    sent_start p m =
        let e = entry_of p m in rw (has_steps planner starts goals limit e.robot p e.sent) refl

    paths-nil :
        (ps : List TimedPath)
        → ((p : TimedPath) → p ∈ ps → p ∈ all)
        → path_problems planner.warehouse (some starts) true ps ≡ []
    unfolding path_problems
    paths-nil [] within = refl
    paths-nil (p ∷ ps) within =
        let e = entry_of p (within p (inl refl)) in
        let own =
          subst (λ r. step_problems planner.warehouse (some starts) true r p.steps ≡ [])
            (sym e.name) (sent_steps-nil planner starts goals limit e.robot p e.sent) in
        rw (own, paths-nil ps (λ q m. within q (inr m))) refl

    arrivals_in_time : maximum (map arrival_time all) ≤ limit
    arrivals_in_time = maximum_le (map arrival_time all) limit (λ n m.
        let (p, there, same) = mem-map-elim arrival_time all n m in
        let e = entry_of p there in
        omega
          (arith, arrives planner starts goals limit e.robot p e.sent, e.sent.delivered.in_time))

minimum_le : (n : ℕ) (ks : List ℕ) → minimum n ks ≤ n
minimum_le n [] = omega arith
minimum_le n (k ∷ ks) = ground (arith, minimum_le k ks, minimum_le n ks)

problems_of-nil :
    (w : Warehouse) (expected : Option (Dict ℕ Position)) (ps : List TimedPath)
    → path_problems w expected true ps ≡ []
    → ((p : TimedPath) → p ∈ ps → start_time p ≡ 0)
    → ((first : ℕ)
        → first ≤ maximum (map arrival_time ps)
        → cross_problems ps first (maximum (map arrival_time ps)) ≡ ok [])
    → problems_of ps w expected true ≡ ok []
unfolding problems_of
problems_of-nil w expected [] own begins cross = refl
problems_of-nil w expected (p ∷ ps) own begins cross =
    let least = minimum_le (start_time p) (map start_time ps) in
    rw
      (cross (minimum (start_time p) (map start_time ps)) (omega (arith, begins p (inl refl))), own)
      refl

-- A dict that holds each path under its robot's name holds one path for each robot.
module _ (keep : TimedPath → Bool) where
  kept_value :
      (q : TimedPath) (d : Dict ℕ TimedPath)
      → IsDict d
      → q ∈ keep_if keep (values d)
      → (r : ℕ) × (lookup r d ≡ some q)
  kept_value q d once m = lookup_of_value q d once ((mem-keep_if keep (values d) q).0 m).0

  pub values-OneEach :
      (d : Dict ℕ TimedPath)
      → IsDict d
      → ((r : ℕ) (p : TimedPath) → lookup r d ≡ some p → p.robot_id ≡ r)
      → OneEach (keep_if keep (values d))
  values-OneEach [] once named = tt
  values-OneEach ((k, p) ∷ d) once named =
      let rest = values-OneEach d once.1 (λ r q found. named r q (later r q found)) in
      elim (Bool-cases (keep p)) [
        | inr dropped ↦ rw dropped rest
        | inl kept ↦ rw kept (
          λ q m same.
              let (r, found) = kept_value q d once.1 m in
              let name = named r q (later r q found) in
              let own = named k p (ground arith) in ground (arith, once.0),
          rest,
        )
      ]
    where
      later : (r : ℕ) (q : TimedPath) → lookup r d ≡ some q → lookup r ((k, p) ∷ d) ≡ some q
      later r q found = elim (Eq-cases r k) [
        | inl (same, _) ↦ absurd (ground (arith, once.0))
        | inr (_, test) ↦ ground arith
      ]

pass_checked :
    (planner : SpaceTimePlanner) (starts goals : Dict ℕ Position) (limit : ℕ) (pass : Pass)
    → IsClear planner starts goals limit pass
    → OneEach (keep_if (λ p. p.success) (values pass.timed_paths))
    → problems_of
        (keep_if (λ p. p.success) (values pass.timed_paths))
        planner.warehouse
        (some starts)
        true
      ≡ ok []
unfolding successful_paths
pass_checked planner starts goals limit pass c one =
    let all = successful_paths pass.timed_paths in
    problems_of-nil planner.warehouse (some starts) all
      (paths-nil planner starts goals limit pass c all (λ p m. m))
      (sent_start planner starts goals limit pass c)
      (λ first le.
        cross_problems-nil all limit (pass-IsFleet planner starts goals limit pass c) first
          (maximum (map arrival_time all)) one le
          (arrivals_in_time planner starts goals limit pass c)
          (λ p m.
            maximum_ge (map arrival_time all) (arrival_time p) (mem-map arrival_time all p m)))

-- Every plan that the coordinator makes for a request in order, whether or not every robot got a path,
-- passes the independent check: against the starts of the request and the obstacles of the floor the
-- validator finds no problem in any path, no two robots on one cell, no swap and nobody on a parked
-- robot's goal, and it does not raise.
pub plan-passes :
    (planner : SpaceTimePlanner) (starts goals : Dict ℕ Position) (priority_order : Option (List ℕ))
    (horizon : Option ℕ)
    → validate_request starts goals priority_order ≡ none
    → (result : CoordinationResult) × (plan planner starts goals priority_order horizon ≡ ok result)
      × (find_coordination_problems (values result.timed_paths) planner.warehouse (some starts) true
          ≡ ok [])
      × (is_conflict_free (values result.timed_paths) planner.warehouse (some starts) ≡ ok true)
unfolding find_coordination_problems is_conflict_free
plan-passes planner starts goals priority_order horizon valid =
    let (result, returns, planned, _) =
      plan-Planned planner starts goals priority_order horizon valid in
    let until = horizon_for planner.warehouse (length starts) horizon in
    let clear = planned.finishes.clear in
    let paths = planned.pass.timed_paths in
    let checked = pass_checked planner starts goals until planned.pass clear (
      values-OneEach (λ p. p.success) paths clear.once
        (λ r p found. (clear.settled r p found).0)) in
    (result, returns, rw planned.is_totals checked, rw (planned.is_totals, checked) refl)
