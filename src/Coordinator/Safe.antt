-- ===== src/Coordinator/Safe.antt =====
-- The plans of the coordinator: `plan` of robotics/coordination/coordinator.py.
use multi_robot_fulfillment.Common.{
  ℕ, ◌≡◌, ◌≢◌, ◌↔◌, inl, inr, refl, true, not, Option, none, some, List, [], ◌∷◌, ◌∈◌, arith,
  nat_eq, ok, sorted, mem-sorted, list_beq→eq, any-intro, Bool-cases, Option-cases, Eq-cases,
  length, sym, subst, ◌∙◌,
}
use multi_robot_fulfillment.Common.Dict.{Dict, lookup, has_key, keys}
use multi_robot_fulfillment.Geometry.{Position}
use multi_robot_fulfillment.Coordination.{TimedPath, FailureReason}
use multi_robot_fulfillment.Coordination.Reserved.{Occupies}
use multi_robot_fulfillment.SpaceTime.{SpaceTimePlanner}
use multi_robot_fulfillment.Coordinator.{
  CoordinationResult, Pass, begin_pass, by_id, same_keys, failure_parts, summarise, totals,
  is_empty, order_problem, validate_request, planning_order, plan_robots, plan_fleet, plan,
  horizon_for,
}
use multi_robot_fulfillment.Coordinator.Clear.{NeverSwap, Settled, begin_pass-IsClear}
use multi_robot_fulfillment.Coordinator.Rounds.{IsAsked, Finishes, plan_robots-Finishes}

module _ {V : Type 0} where
  lookup_of_key : (k : ℕ) (d : Dict ℕ V) → k ∈ keys d → (v : V) × (lookup k d ≡ some v)
  lookup_of_key k [] m = absurd m
  lookup_of_key k ((j, v) ∷ d) m = elim (Eq-cases k j) [
    | inl (_, test) ↦ (v, ground arith)
    | inr (ne, test) ↦ elim m [
      | inl same ↦ absurd (ne same)
      | inr rest ↦ let (w, found) = lookup_of_key k d rest in (w, ground arith)
    ]
  ]

failure_parts-ok :
    (paths : Dict ℕ TimedPath) (failures : List ℕ)
    → ((r : ℕ) → r ∈ failures → (p : TimedPath) × (lookup r paths ≡ some p))
    → (parts : List (ℕ × Option FailureReason)) × (failure_parts paths failures ≡ ok parts)
failure_parts-ok paths [] known = ([], refl)
failure_parts-ok paths (r ∷ rs) known =
    let (p, found) = known r (inl refl) in
    let (parts, rest) = failure_parts-ok paths rs (λ r' m. known r' (inr m)) in
    ((r, p.failure_reason) ∷ parts, ground arith)

module _ (planner : SpaceTimePlanner) (starts goals : Dict ℕ Position) where
  -- Every robot of the order has an entry: a path from its start to its goal, or a failure that is
  -- listed. Robots with a path are never on one cell at one timestep through the horizon, under way
  -- or parked, and never trade cells.
  pub record IsSafe (horizon : ℕ) (result : CoordinationResult) : Type 0 where
    pub everyone :
        (r : ℕ)
        → r ∈ keys starts
        → (p : TimedPath) × (lookup r result.timed_paths ≡ some p)
          × (p.robot_id ≡ r)
          × Settled planner starts goals horizon result.failed_robot_ids r p
    pub all_planned :
        (r : ℕ) (p : TimedPath)
        → result.success ≡ true
        → lookup r result.timed_paths ≡ some p
        → p.success ≡ true
    pub apart :
        (r r' : ℕ) (p q : TimedPath) (cell : Position) (timestep : ℕ)
        → r ≢ r'
        → lookup r result.timed_paths ≡ some p
        → lookup r' result.timed_paths ≡ some q
        → p.success ≡ true
        → q.success ≡ true
        → Occupies p horizon cell timestep
        → ¬ Occupies q horizon cell timestep
    pub no_swap :
        (r r' : ℕ) (p q : TimedPath)
        → r ≢ r'
        → lookup r result.timed_paths ≡ some p
        → lookup r' result.timed_paths ≡ some q
        → p.success ≡ true
        → q.success ≡ true
        → NeverSwap p q

  module _ (order : List ℕ) (horizon : ℕ) (pass : Pass)
      (finishes : Finishes planner starts goals horizon order begin_pass pass)
      (parts : List (ℕ × Option FailureReason)) (full : (r : ℕ) → r ∈ keys starts → r ∈ order) where
    open finishes use {clear, entries}

    abbrev result : CoordinationResult
    result = totals pass.timed_paths order pass.failed horizon parts

    pass-apart :
        (r r' : ℕ) (p q : TimedPath) (cell : Position) (timestep : ℕ)
        → r ≢ r'
        → lookup r pass.timed_paths ≡ some p
        → lookup r' pass.timed_paths ≡ some q
        → p.success ≡ true
        → q.success ≡ true
        → Occupies p horizon cell timestep
        → ¬ Occupies q horizon cell timestep
    pass-apart r r' p q cell timestep ne h k s s' here there =
        let first = (clear.reserved r p h s).cells cell timestep here in
        let second = (clear.reserved r' q k s').cells cell timestep there in
        let name = (clear.settled r p h).0 in
        let name' = (clear.settled r' q k).0 in ne (ground arith)

    not_listed : (r : ℕ) → is_empty pass.failed ≡ true → ¬ (r ∈ pass.failed)
    not_listed r none_failed m = nothing pass.failed none_failed m
      where
        nothing : (rs : List ℕ) → is_empty rs ≡ true → ¬ (r ∈ rs)
        nothing [] h n = n
        nothing (x ∷ xs) h n = ground arith

    pass-IsSafe : IsSafe horizon result
    pass-IsSafe = record {
      everyone = λ r m.
          let (p, found) = entries r (inl (full r m)) in
          let (name, settled) = clear.settled r p found in (p, found, name, settled);
      all_planned = λ r p success found. elim (clear.settled r p found).1 [
        | inl (planned, _) ↦ planned
        | inr (_, listed) ↦ absurd (not_listed r success listed)
      ];
      apart = pass-apart;
      no_swap = clear.no_swap;
    }

  summarises :
      (paths : Dict ℕ TimedPath) (order failures : List ℕ) (horizon : ℕ)
      (parts : List (ℕ × Option FailureReason))
      → failure_parts paths failures ≡ ok parts
      → summarise paths order failures horizon ≡ ok (totals paths order failures horizon parts)
  unfolding summarise
  summarises paths order failures horizon parts h = rw h refl

  fleet_planned :
      (order : List ℕ) (horizon : ℕ) (pass : Pass)
      → plan_robots planner starts goals horizon order begin_pass ≡ ok pass
      → plan_fleet planner starts goals order horizon
        ≡ summarise pass.timed_paths order pass.failed horizon
  unfolding plan_fleet
  fleet_planned order horizon pass h = rw h refl

  -- The loop of `plan` ended, and its result is the summary.
  pub record Planned (order : List ℕ) (horizon : ℕ) (result : CoordinationResult) : Type 0 where
    pub pass : Pass
    pub parts : List (ℕ × Option FailureReason)
    pub finishes : Finishes planner starts goals horizon order begin_pass pass
    pub is_totals : result ≡ totals pass.timed_paths order pass.failed horizon parts

  plan_fleet-Planned :
      (order : List ℕ) (horizon : ℕ)
      → ((r : ℕ) → r ∈ order → IsAsked planner starts goals horizon r)
      → (result : CoordinationResult) × (plan_fleet planner starts goals order horizon ≡ ok result)
        × Planned order horizon result
  plan_fleet-Planned order horizon asked =
      let (pass, loops, finishes) =
        plan_robots-Finishes planner starts goals horizon order begin_pass asked
          (begin_pass-IsClear planner starts goals horizon) in
      let (parts, listed) = failure_parts-ok pass.timed_paths pass.failed finishes.clear.known in
      (
        totals pass.timed_paths order pass.failed horizon parts,
        fleet_planned order horizon pass loops
            ∙ summarises pass.timed_paths order pass.failed horizon parts listed,
        record { pass = pass; parts = parts; finishes = finishes; is_totals = refl },
      )

  -- What a request in order says of its robots.
  record InOrder (priority_order : Option (List ℕ)) : Type 0 where
    pub alike : same_keys starts goals ≡ true
    pub permuted : order_problem starts priority_order ≡ none

  validated-InOrder :
      (priority_order : Option (List ℕ))
      → validate_request starts goals priority_order ≡ none
      → InOrder priority_order
  unfolding validate_request
  validated-InOrder priority_order h = record { alike = ground arith; permuted = ground arith }

  has_goal : (r : ℕ) → same_keys starts goals ≡ true → r ∈ keys starts → has_key r goals ≡ true
  has_goal r alike m = elim (Bool-cases (has_key r goals)) [
    | inl there ↦ there
    | inr missing ↦ ground (arith, any-intro (λ k. not (has_key k goals)) (keys starts) r m)
  ]

  asked :
      (horizon r : ℕ)
      → same_keys starts goals ≡ true
      → r ∈ keys starts
      → IsAsked planner starts goals horizon r
  asked horizon r alike m =
      let (start, is_start) = lookup_of_key r starts m in
      elim (Option-cases (lookup r goals)) [
        | inl missing ↦ absurd (ground (arith, has_goal r alike m))
        | inr (goal, is_goal) ↦ record {
          start = start;
          goal = goal;
          is_start = is_start;
          is_goal = is_goal;
        }
      ]

  planning_order-keys :
      (priority_order : Option (List ℕ)) (r : ℕ)
      → order_problem starts priority_order ≡ none
      → (r ∈ planning_order starts priority_order) ↔ (r ∈ keys starts)
  unfolding order_problem planning_order
  planning_order-keys none r h = mem-sorted by_id r (keys starts)
  planning_order-keys (some []) r h = mem-sorted by_id r (keys starts)
  planning_order-keys (some (x ∷ xs)) r h =
      let same : sorted by_id (x ∷ xs) ≡ sorted by_id (keys starts) =
        list_beq→eq (sorted by_id (x ∷ xs)) (sorted by_id (keys starts)) (ground arith) in
      let given = mem-sorted by_id r (x ∷ xs) in
      let known = mem-sorted by_id r (keys starts) in
      (
        λ m. known.0 (subst (λ l. r ∈ l) same (given.1 m)),
        λ m. given.0 (subst (λ l. r ∈ l) (sym same) (known.1 m)),
      )

  plan_accepted :
      (priority_order : Option (List ℕ)) (horizon : Option ℕ)
      → validate_request starts goals priority_order ≡ none
      → plan planner starts goals priority_order horizon
        ≡ plan_fleet planner starts goals
            (planning_order starts priority_order)
            (horizon_for planner.warehouse (length starts) horizon)
  unfolding plan
  plan_accepted priority_order horizon h = rw (plan, h) refl

  pub plan-Planned :
      (priority_order : Option (List ℕ)) (horizon : Option ℕ)
      → validate_request starts goals priority_order ≡ none
      → let order = planning_order starts priority_order in
        (result : CoordinationResult) × (plan planner starts goals priority_order horizon
          ≡ ok result)
        × Planned order (horizon_for planner.warehouse (length starts) horizon) result
        × ((r : ℕ) → r ∈ keys starts → r ∈ order)
  plan-Planned priority_order horizon valid =
      let in_order = validated-InOrder priority_order valid in
      let until = horizon_for planner.warehouse (length starts) horizon in
      let same = λ (r : ℕ). planning_order-keys priority_order r in_order.permuted in
      let (result, returns, planned) =
        plan_fleet-Planned (planning_order starts priority_order) until
          (λ r m. asked until r in_order.alike ((same r).0 m)) in
      (result, plan_accepted priority_order horizon valid ∙ returns, planned, λ r m. (same r).1 m)

-- A request in which the coordinator finds no problem is always planned: no reservation is refused and
-- nothing is raised. Every robot of the request has an entry, either a path that leads from its start to its
-- goal over free cells, or a failure, and then it is listed; the plan is a success only if every
-- robot has a path. Through the horizon no two robots with paths are on one cell at one timestep,
-- under way or parked on their goals, and none trade cells in a move.
pub plan-IsSafe :
    (planner : SpaceTimePlanner) (starts goals : Dict ℕ Position) (priority_order : Option (List ℕ))
    (horizon : Option ℕ)
    → validate_request starts goals priority_order ≡ none
    → (result : CoordinationResult) × (plan planner starts goals priority_order horizon ≡ ok result)
      × IsSafe planner starts goals (horizon_for planner.warehouse (length starts) horizon) result
plan-IsSafe planner starts goals priority_order horizon valid =
    let (result, returns, planned, full) =
      plan-Planned planner starts goals priority_order horizon valid in
    let until = horizon_for planner.warehouse (length starts) horizon in
    let order = planning_order starts priority_order in
    (
      result,
      returns,
      rw planned.is_totals (
          pass-IsSafe planner starts goals order until planned.pass planned.finishes planned.parts
            full),
    )
