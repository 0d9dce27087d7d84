-- ===== src/Allocation/Cached.antt =====
-- The cache of the estimator of robotics/allocation/cost_estimator.py.
use multi_robot_fulfillment.Common.{
  ℕ, ◌+◌, ◌≡◌, ◌≢◌, ◌⊎◌, inl, inr, refl, sym, subst, ap, ◌∙◌, none, some, Option, List, [], ◌∷◌,
  arith, Result, ok, err, Option-cases, Result-cases, Eq-cases,
}
use multi_robot_fulfillment.Common.Int.{ℤ}
use multi_robot_fulfillment.Common.Dict.{lookup, insert, lookup-insert}
use multi_robot_fulfillment.Geometry.{Position}
use multi_robot_fulfillment.Warehouse.{Warehouse}
use multi_robot_fulfillment.Robot.{Robot}
use multi_robot_fulfillment.Task.{Task}
use multi_robot_fulfillment.Allocation.Cost
use multi_robot_fulfillment.Allocation.Cost.{
  Planner, AssignmentCost, Leg, leg, leg_eq, CostEstimator, store, planned_cost, path_cost,
  second_leg, estimate,
}

-- Every stored price is the planner's.
abbrev pub IsFaithful : CostEstimator → Type 0
IsFaithful e =
    (k : Leg) (cost : Option ℤ)
    → lookup k e.cache ≡ some cost
    → planned_cost e.planner e.warehouse k.start k.goal ≡ ok cost

-- What a call leaves, when `answer` is what it gave.
record Keeps {A : Type 0} (e after : CostEstimator) (answer expected : Result A) : Type 0 where
  pub same_planner : after.planner ≡ e.planner
  pub same_warehouse : after.warehouse ≡ e.warehouse
  pub faithful : IsFaithful after
  pub answers : answer ≡ expected

insert-IsFaithful :
    (e : CostEstimator) (calls : ℕ) (key : Leg) (cost : Option ℤ)
    → IsFaithful e
    → planned_cost e.planner e.warehouse key.start key.goal ≡ ok cost
    → IsFaithful (record e { cache = insert key cost e.cache; planner_calls = calls })
insert-IsFaithful e calls key cost faithful planned k found l = elim (Eq-cases k key) [
  | inl (same, test) ↦
      let is_cost : cost ≡ found = ground (arith, lookup-insert key k cost e.cache, test, l) in
      subst (λ x. planned_cost e.planner e.warehouse x.start x.goal ≡ ok found) (sym same)
        (planned ∙ ap ok is_cost)
  | inr (_, test) ↦ faithful k found (ground (arith, lookup-insert key k cost e.cache, test, l))
]

stored :
    (e : CostEstimator) (calls : ℕ) (key : Leg) (planned : Result (Option ℤ))
    → IsFaithful e
    → planned_cost e.planner e.warehouse key.start key.goal ≡ planned
    → let call = store key planned (record e { planner_calls = calls }) in
      Keeps e call.1 call.0 planned
unfolding store
stored e calls key (ok cost) faithful same = record {
  same_planner = refl;
  same_warehouse = refl;
  faithful = insert-IsFaithful e calls key cost faithful same;
  answers = refl;
}
stored e calls key (err x) faithful same = record {
  same_planner = refl;
  same_warehouse = refl;
  faithful = faithful;
  answers = refl;
}

pub path_cost_known :
    (start goal : Position) (e : CostEstimator) (cost : Option ℤ)
    → lookup (leg start goal) e.cache ≡ some cost
    → path_cost start goal e ≡ (ok cost, e)
unfolding path_cost
path_cost_known start goal e cost known = ground (arith, known)

pub path_cost_new :
    (start goal : Position) (e : CostEstimator)
    → lookup (leg start goal) e.cache ≡ none
    → path_cost start goal e
      ≡ store
          (leg start goal)
          (planned_cost e.planner e.warehouse start goal)
          (record e { planner_calls = e.planner_calls + 1 })
unfolding path_cost
path_cost_new start goal e absent = ground (arith, absent)

path_cost-Keeps :
    (start goal : Position) (e : CostEstimator)
    → IsFaithful e
    → let call = path_cost start goal e in
      Keeps e call.1 call.0 (planned_cost e.planner e.warehouse start goal)
path_cost-Keeps start goal e faithful =
    let key = leg start goal in
    let planned = planned_cost e.planner e.warehouse start goal in
    elim (Option-cases (lookup key e.cache)) [
      | inr (cost, known) ↦
          subst (λ call. Keeps e call.1 call.0 planned)
            (sym (path_cost_known start goal e cost known))
            (record {
              same_planner = refl;
              same_warehouse = refl;
              faithful = faithful;
              answers = sym (faithful key cost known);
            })
      | inl absent ↦
          subst (λ call. Keeps e call.1 call.0 planned) (sym (path_cost_new start goal e absent))
            (stored e (e.planner_calls + 1) key planned faithful refl)
    ]

-- The price from the prices of the two legs; the second is not asked for when the first has none.
abbrev pub priced : Result (Option ℤ) → Result (Option ℤ) → Result (Option AssignmentCost)
priced (err x) second = err x
priced (ok none) second = ok none
priced (ok (some cost)) (err x) = err x
priced (ok (some cost)) (ok second) = ok (second_leg cost second)

-- The price that the planner gives now, without a cache.
abbrev pub planned_estimate : Planner → Warehouse → Robot → Task → Result (Option AssignmentCost)
planned_estimate planner w robot task =
    priced (planned_cost planner w robot.position task.pickup_location)
      (planned_cost planner w task.pickup_location task.dropoff_location)

module _ (robot : Robot) (task : Task) (e : CostEstimator) where
  abbrev first : Result (Option ℤ) × CostEstimator
  first = path_cost robot.position task.pickup_location e

  abbrev second : Result (Option ℤ) × CostEstimator
  second = path_cost task.pickup_location task.dropoff_location first.1

  -- A first leg without a price, or with an exception, ends the estimate.
  estimate_ends :
      (later : Result (Option ℤ))
      → ((cost : ℤ) → first.0 ≢ ok (some cost))
      → estimate robot task e ≡ (priced first.0 later, first.1)
  unfolding estimate
  estimate_ends later h = elim (Result-cases first.0) [
    | inr (x, raised) ↦ ground (arith, raised)
    | inl (none, found) ↦ ground (arith, found)
    | inl (some cost, found) ↦ absurd (h cost found)
  ]

  estimate_goes_on :
      (cost : ℤ)
      → first.0 ≡ ok (some cost)
      → estimate robot task e ≡ (priced first.0 second.0, second.1)
  unfolding estimate
  estimate_goes_on cost found = elim (Result-cases second.0) [
    | inr (x, raised) ↦ ground (arith, found, raised)
    | inl (other, found') ↦ ground (arith, found, found')
  ]

  has_price :
      (answer : Result (Option ℤ))
      → ((cost : ℤ) × (answer ≡ ok (some cost))) ⊎ ((cost : ℤ) → answer ≢ ok (some cost))
  has_price (err x) = inr (λ cost h. ground (arith, h))
  has_price (ok none) = inr (λ cost h. ground (arith, h))
  has_price (ok (some cost)) = inl (cost, refl)

  estimate-Keeps :
      IsFaithful e
      → Keeps e
          (estimate robot task e).1
          (estimate robot task e).0
          (planned_estimate e.planner e.warehouse robot task)
  estimate-Keeps faithful =
      let expected = planned_estimate e.planner e.warehouse robot task in
      let later = planned_cost e.planner e.warehouse task.pickup_location task.dropoff_location in
      let kept = path_cost-Keeps robot.position task.pickup_location e faithful in
      let kept' =
        path_cost-Keeps task.pickup_location task.dropoff_location first.1 kept.faithful in
      elim (has_price first.0) [
        | inr ended ↦
            subst (λ call. Keeps e call.1 call.0 expected) (sym (estimate_ends later ended))
              (record {
                same_planner = kept.same_planner;
                same_warehouse = kept.same_warehouse;
                faithful = kept.faithful;
                answers = ap (λ x. priced x later) kept.answers;
              })
        | inl (cost, found) ↦
            let same : second.0 ≡ later =
              kept'.answers ∙ rw (kept.same_planner, kept.same_warehouse) refl in
            subst (λ call. Keeps e call.1 call.0 expected) (sym (estimate_goes_on cost found))
              (record {
                same_planner = kept'.same_planner ∙ kept.same_planner;
                same_warehouse = kept'.same_warehouse ∙ kept.same_warehouse;
                faithful = kept'.faithful;
                answers =
                    ap (λ x. priced x second.0) kept.answers
                    ∙ ap
                        (λ x.
                          priced
                            (planned_cost e.planner e.warehouse robot.position task.pickup_location)
                            x)
                        same;
              })
      ]

-- The estimator after a sequence of estimates, those that raised included.
abbrev pub after_estimates : List (Robot × Task) → CostEstimator → CostEstimator
after_estimates [] e = e
after_estimates ((robot, task) ∷ requests) e = after_estimates requests (estimate robot task e).1

after-IsFaithful :
    (requests : List (Robot × Task)) (w : Warehouse) (planner : Planner) (e : CostEstimator)
    → IsFaithful e
    → e.warehouse ≡ w
    → e.planner ≡ planner
    → let after = after_estimates requests e in
      IsFaithful after × (after.warehouse ≡ w) × (after.planner ≡ planner)
after-IsFaithful [] w planner e faithful same same' = (faithful, same, same')
after-IsFaithful ((robot, task) ∷ requests) w planner e faithful same same' =
    let kept = estimate-Keeps robot task e faithful in
    after-IsFaithful requests w planner (estimate robot task e).1 kept.faithful
      (kept.same_warehouse ∙ same) (kept.same_planner ∙ same')

-- The cache never changes an answer: for an estimator that has made any sequence of estimates since
-- it was built, those that raised included, the estimate of a pair is what the planner gives for its
-- two legs without a cache, the first exception or missing route included.
pub estimate_planned :
    (requests : List (Robot × Task)) (w : Warehouse) (planner : Planner) (robot : Robot)
    (task : Task)
    → (estimate robot task (after_estimates requests (Cost.new w planner))).0
      ≡ planned_estimate planner w robot task
unfolding Cost.new
estimate_planned requests w planner robot task =
    let (faithful, same, same') =
      after-IsFaithful requests w planner (Cost.new w planner)
        (λ k cost l. absurd (ground (arith, l))) refl refl in
    let e = after_estimates requests (Cost.new w planner) in
    (estimate-Keeps robot task e faithful).answers ∙ rw (same, same') refl
