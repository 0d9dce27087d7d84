-- ===== src/Allocation/Errors.antt =====
-- Where the exceptions of an allocation come from: robotics/allocation/cost_estimator.py,
-- feasibility.py and greedy_allocator.py.
use multi_robot_fulfillment.Common.{
  ◌+◌, ◌≡◌, inl, inr, refl, sym, subst, ap, ◌∙◌, none, some, Option, List, [], ◌∷◌, arith, Result,
  ok, err, Error, Action, ◌>>=◌, pure, Result-cases, Option-cases, Bool-cases,
}
use multi_robot_fulfillment.Common.Int.{ℤ}
use multi_robot_fulfillment.Common.Dict.{lookup}
use multi_robot_fulfillment.Geometry.{Position}
use multi_robot_fulfillment.Warehouse.{Warehouse}
use multi_robot_fulfillment.Robot.{Robot, can_carry}
use multi_robot_fulfillment.Task.{Task}
use multi_robot_fulfillment.Allocation.Cost.{
  Planner, leg, leg_eq, CostEstimator, store, planned_cost, path_cost, second_leg, price_second,
  estimate,
}
use multi_robot_fulfillment.Allocation.Cached.{path_cost_known, path_cost_new}
use multi_robot_fulfillment.Allocation.Feasible.{
  Candidates, eligible_robots, pending_tasks, pair_if_charged, price_pair, add_pair, price_tasks,
  price_robots, build_candidate_pairs,
}

module _ (planner : Planner) (w : Warehouse) where
  -- The exception is the planner's, for some two cells.
  pub record IsPlanners (x : Error) : Type 0 where
    pub start : Position
    pub goal : Position
    pub raised : planned_cost planner w start goal ≡ err x

  abbrev IsOf : CostEstimator → Type 0
  IsOf e = (e.planner ≡ planner) × (e.warehouse ≡ w)

  -- The call keeps the planner and the floor, and raises only what the planner raised.
  abbrev Blames : {A : Type 0} → Result A × CostEstimator → Type 0
  Blames (answer, after) = IsOf after × ((x : Error) → answer ≡ err x → IsPlanners x)

  abbrev Behaves : {A : Type 0} → Action CostEstimator A → Type 0
  Behaves m = (e : CostEstimator) → IsOf e → Blames (m e)

  pure-Behaves : {A : Type 0} (a : A) → Behaves (pure a)
  pure-Behaves a e same = (same, λ x h. absurd (ground (arith, h)))

  same_error : {B : Type 0} (x y : Error) → ◌≡◌ {A = Result B} (err x) (err y) → x ≡ y
  same_error x y h = ground (arith, h)

  bind-Behaves :
      {A B : Type 0} (m : Action CostEstimator A) (k : A → Action CostEstimator B)
      → Behaves m
      → ((a : A) → Behaves (k a))
      → Behaves (m >>= k)
  bind-Behaves m k first later e same =
      let (kept, blame) = first e same in
      elim (Result-cases (m e).0) [
        | inl (a, returned) ↦
            let goes_on : (m >>= k) e ≡ k a (m e).1 = ground (arith, returned) in
            subst (λ call. Blames call) (sym goes_on) (later a (m e).1 kept)
        | inr (x, raised) ↦
            let stops : (m >>= k) e ≡ (err x, (m e).1) = ground (arith, raised) in
            subst (λ call. Blames call) (sym stops)
              (kept, λ y h. blame y (raised ∙ ap err (same_error x y h)))
      ]

  stored-Blames :
      (start goal : Position) (e : CostEstimator) (planned : Result (Option ℤ))
      → IsOf e
      → planned_cost planner w start goal ≡ planned
      → Blames (store (leg start goal) planned e)
  unfolding store
  stored-Blames start goal e (ok cost) same h =
      (same, λ x impossible. absurd (ground (arith, impossible)))
  stored-Blames start goal e (err y) same h =
      (same, λ x is_x. record { start = start; goal = goal; raised = h ∙ is_x })

  path_cost-Behaves : (start goal : Position) → Behaves (path_cost start goal)
  path_cost-Behaves start goal e (same, same') =
      elim (Option-cases (lookup (leg start goal) e.cache)) [
        | inr (cost, known) ↦
            subst (λ call. Blames call) (sym (path_cost_known start goal e cost known))
              ((same, same'), λ x h. absurd (ground (arith, h)))
        | inl absent ↦
            subst (λ call. Blames call) (sym (path_cost_new start goal e absent))
              (stored-Blames start goal (record e { planner_calls = e.planner_calls + 1 })
                (planned_cost e.planner e.warehouse start goal) (same, same')
                (rw (same, same') refl))
      ]

  price_second-Behaves :
      (task : Task) (to_pickup : Option ℤ) → Behaves (price_second task to_pickup)
  price_second-Behaves task none = pure-Behaves none
  price_second-Behaves task (some cost) =
      bind-Behaves (path_cost task.pickup_location task.dropoff_location)
        (λ to_dropoff. pure (second_leg cost to_dropoff))
        (path_cost-Behaves task.pickup_location task.dropoff_location)
        (λ to_dropoff. pure-Behaves (second_leg cost to_dropoff))

  estimate-Behaves : (robot : Robot) (task : Task) → Behaves (estimate robot task)
  unfolding estimate
  estimate-Behaves robot task =
      bind-Behaves (path_cost robot.position task.pickup_location) (price_second task)
        (path_cost-Behaves robot.position task.pickup_location) (price_second-Behaves task)

  price_pair-Behaves : (robot : Robot) (task : Task) → Behaves (price_pair robot task)
  unfolding price_pair
  price_pair-Behaves robot task e same = elim (Bool-cases (can_carry task.payload_weight robot)) [
    | inr heavy ↦
        let skipped : price_pair robot task e ≡ (ok none, e) = ground (arith, heavy) in
        subst (λ call. Blames call) (sym skipped) (pure-Behaves none e same)
    | inl fits ↦
        let priced =
          bind-Behaves (estimate robot task) (λ cost. pure (pair_if_charged robot task cost))
            (estimate-Behaves robot task) (λ cost. pure-Behaves (pair_if_charged robot task cost)) e
            same in
        let goes_on : price_pair robot task e
            ≡ (estimate robot task >>= λ cost. pure (pair_if_charged robot task cost)) e =
          ground (arith, fits) in
        subst (λ call. Blames call) (sym goes_on) priced
  ]

  price_tasks-Behaves :
      (robot : Robot) (tasks : List Task) (found : Candidates)
      → Behaves (price_tasks robot tasks found)
  unfolding price_tasks
  price_tasks-Behaves robot [] found = pure-Behaves found
  price_tasks-Behaves robot (task ∷ tasks) found =
      bind-Behaves (price_pair robot task) (λ pair. price_tasks robot tasks (add_pair pair found))
        (price_pair-Behaves robot task)
        (λ pair. price_tasks-Behaves robot tasks (add_pair pair found))

  price_robots-Behaves :
      (robots : List Robot) (tasks : List Task) (found : Candidates)
      → Behaves (price_robots robots tasks found)
  unfolding price_robots
  price_robots-Behaves [] tasks found = pure-Behaves found
  price_robots-Behaves (robot ∷ robots) tasks found =
      bind-Behaves (price_tasks robot tasks found) (λ found'. price_robots robots tasks found')
        (price_tasks-Behaves robot tasks found) (λ found'. price_robots-Behaves robots tasks found')

  pub build-blames :
      (robots : List Robot) (tasks : List Task) (e : CostEstimator) (x : Error)
      → IsOf e
      → (build_candidate_pairs robots tasks e).0 ≡ err x
      → IsPlanners x
  unfolding build_candidate_pairs
  build-blames robots tasks e x same h =
      (price_robots-Behaves (eligible_robots robots) (pending_tasks tasks)
          (record { feasible = []; infeasible = 0 }) e same).1
        x h
