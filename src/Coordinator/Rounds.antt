-- ===== src/Coordinator/Rounds.antt =====
-- The rounds of the coordinator's loop: no reservation is refused, and every robot gets an entry.
use multi_robot_fulfillment.Common.{
  ℕ, ◌≡◌, ◌⊎◌, inl, inr, refl, true, false, some, List, [], ◌∷◌, ◌++◌, ◌∈◌, arith, nat_eq, ok, ◌∙◌,
}
use multi_robot_fulfillment.Common.Dict.{Dict, lookup, insert, lookup-insert_self}
use multi_robot_fulfillment.Geometry.{Position}
use multi_robot_fulfillment.Coordination.{TimedPath, reserve_timed_path}
use multi_robot_fulfillment.SpaceTime
use multi_robot_fulfillment.SpaceTime.{SpaceTimePlanner, plan_until}
use multi_robot_fulfillment.SpaceTime.Answers.{IsDelivered, IsUndelivered}
use multi_robot_fulfillment.SpaceTime.Plans.{plan_until-Outcome}
use multi_robot_fulfillment.SpaceTime.Reservable.{
  delivered-robot_id, delivered-success, delivered-Granted, failed_success, failed_name,
}
use multi_robot_fulfillment.Coordinator.{Pass, enter_path, plan_robot, plan_robots}
use multi_robot_fulfillment.Coordinator.Clear.{
  Sent, IsClear, with_path, with_failure, found-IsClear, failed-IsClear, still_known,
}

module _ (planner : SpaceTimePlanner) (starts goals : Dict ℕ Position) (horizon : ℕ) where
  enters_found :
      (r : ℕ) (pass : Pass) (p : TimedPath)
      → p.success ≡ true
      → (reserve_timed_path p horizon pass.reservations).0 ≡ ok tt
      → enter_path horizon r pass p
        ≡ ok (record pass {
          reservations = (reserve_timed_path p horizon pass.reservations).1;
          timed_paths = insert r p pass.timed_paths;
        })
  unfolding enter_path
  enters_found r pass p success returns = ground arith

  enters_failed :
      (r : ℕ) (pass : Pass) (p : TimedPath)
      → p.success ≡ false
      → enter_path horizon r pass p
        ≡ ok (record pass {
          timed_paths = insert r p pass.timed_paths;
          failed = pass.failed ++ (r ∷ []);
        })
  unfolding enter_path
  enters_failed r pass p fails = ground arith

  plans :
      (r : ℕ) (pass : Pass) (start goal : Position) (p : TimedPath)
      → lookup r starts ≡ some start
      → lookup r goals ≡ some goal
      → plan_until planner start goal pass.reservations r 0 horizon ≡ ok p
      → plan_robot planner starts goals horizon r pass ≡ enter_path horizon r pass p
  unfolding plan_robot SpaceTime.plan
  plans r pass start goal p at_start at_goal returns = rw (at_start, at_goal, returns) refl

  -- A robot of the request is known by its start and its goal.
  pub record IsAsked (r : ℕ) : Type 0 where
    pub start : Position
    pub goal : Position
    pub is_start : lookup r starts ≡ some start
    pub is_goal : lookup r goals ≡ some goal

  -- A round: the loop goes on in order, the robot has an entry, and no entry is lost.
  pub record Proceeds (r : ℕ) (pass pass' : Pass) : Type 0 where
    pub clear : IsClear planner starts goals horizon pass'
    pub entry : (p : TimedPath) × (lookup r pass'.timed_paths ≡ some p)
    pub entries :
        (r' : ℕ)
        → (p : TimedPath) × (lookup r' pass.timed_paths ≡ some p)
        → (p : TimedPath) × (lookup r' pass'.timed_paths ≡ some p)

  plan_robot-Proceeds :
      (r : ℕ) (pass : Pass)
      → IsAsked r
      → IsClear planner starts goals horizon pass
      → (pass' : Pass) × (plan_robot planner starts goals horizon r pass ≡ ok pass')
        × Proceeds r pass pass'
  plan_robot-Proceeds r pass asked c =
      let (p, returns, outcome) =
        plan_until-Outcome planner asked.start asked.goal pass.reservations r 0 horizon in
      let entered = plans r pass asked.start asked.goal p asked.is_start asked.is_goal returns in
      elim outcome [
        | inl (arrival, delivered, _) ↦ found_round p arrival delivered entered
        | inr (undelivered, _) ↦ failed_round p undelivered entered
      ]
    where
      found_round :
          (p : TimedPath) (arrival : ℕ)
          → IsDelivered planner asked.start asked.goal pass.reservations r 0 horizon p arrival
          → plan_robot planner starts goals horizon r pass ≡ enter_path horizon r pass p
          → (pass' : Pass) × (plan_robot planner starts goals horizon r pass ≡ ok pass')
            × Proceeds r pass pass'
      found_round p arrival delivered entered =
          let success =
            delivered-success planner asked.start asked.goal pass.reservations r 0 horizon p arrival
              delivered in
          let name =
            delivered-robot_id planner asked.start asked.goal pass.reservations r 0 horizon p
              arrival delivered in
          let (granted, has) =
            delivered-Granted planner asked.start asked.goal pass.reservations r 0 horizon p arrival
              delivered c.guards in
          let sent : Sent planner starts goals horizon r p = record {
            start = asked.start;
            goal = asked.goal;
            is_start = asked.is_start;
            is_goal = asked.is_goal;
            table = pass.reservations;
            arrival = arrival;
            delivered = delivered;
          } in
          (
            with_path planner starts goals horizon pass r p c,
            entered ∙ enters_found r pass p success granted.returns,
            record {
              clear =
                  found-IsClear planner starts goals horizon pass r p c sent refl success name
                    granted.grants has;
              entry = (p, lookup-insert_self r p pass.timed_paths);
              entries = λ r'. still_known planner starts goals horizon r r' p pass.timed_paths;
            },
          )

      failed_round :
          (p : TimedPath)
          → IsUndelivered planner asked.start asked.goal pass.reservations r 0 horizon p
          → plan_robot planner starts goals horizon r pass ≡ enter_path horizon r pass p
          → (pass' : Pass) × (plan_robot planner starts goals horizon r pass ≡ ok pass')
            × Proceeds r pass pass'
      failed_round p undelivered entered =
          let fails = failed_success p r undelivered.reason undelivered.is_failed in
          let name = failed_name p r undelivered.reason undelivered.is_failed in
          (
            with_failure planner starts goals horizon pass r p c,
            entered ∙ enters_failed r pass p fails,
            record {
              clear = failed-IsClear planner starts goals horizon pass r p c fails name;
              entry = (p, lookup-insert_self r p pass.timed_paths);
              entries = λ r'. still_known planner starts goals horizon r r' p pass.timed_paths;
            },
          )

  one_round :
      (r : ℕ) (rs : List ℕ) (pass pass' : Pass)
      → plan_robot planner starts goals horizon r pass ≡ ok pass'
      → plan_robots planner starts goals horizon (r ∷ rs) pass
        ≡ plan_robots planner starts goals horizon rs pass'
  unfolding plan_robots
  one_round r rs pass pass' h = rw h refl

  no_round : (pass : Pass) → plan_robots planner starts goals horizon [] pass ≡ ok pass
  unfolding plan_robots
  no_round pass = refl

  -- After the loop every robot of the list has an entry, and so has every robot that had one.
  pub record Finishes (rs : List ℕ) (pass pass' : Pass) : Type 0 where
    pub clear : IsClear planner starts goals horizon pass'
    pub entries :
        (r : ℕ)
        → (r ∈ rs) ⊎ ((p : TimedPath) × (lookup r pass.timed_paths ≡ some p))
        → (p : TimedPath) × (lookup r pass'.timed_paths ≡ some p)

  pub plan_robots-Finishes :
      (rs : List ℕ) (pass : Pass)
      → ((r : ℕ) → r ∈ rs → IsAsked r)
      → IsClear planner starts goals horizon pass
      → (pass' : Pass) × (plan_robots planner starts goals horizon rs pass ≡ ok pass')
        × Finishes rs pass pass'
  plan_robots-Finishes [] pass asked c = (
    pass,
    no_round pass,
    record { clear = c; entries = λ r. elim [ inl m ↦ absurd m | inr old ↦ old ] },
  )
  plan_robots-Finishes (r ∷ rs) pass asked c =
      let (pass', first, proceeds) = plan_robot-Proceeds r pass (asked r (inl refl)) c in
      let (pass'', rest, finishes) =
        plan_robots-Finishes rs pass' (λ r' m. asked r' (inr m)) proceeds.clear in
      (
        pass'',
        one_round r rs pass pass' first ∙ rest,
        record {
          clear = finishes.clear;
          entries = λ r'. elim [
            | inl (inl same) ↦ rw same (finishes.entries r (inr proceeds.entry))
            | inl (inr m) ↦ finishes.entries r' (inl m)
            | inr old ↦ finishes.entries r' (inr (proceeds.entries r' old))
          ];
        },
      )
