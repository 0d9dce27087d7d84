-- ===== src/SpaceTime/Hold.antt =====
-- From when on a robot can park on its goal: `_earliest_goal_hold`.
use multi_robot_fulfillment.Common.{
  ℕ, zero, suc, ◌+◌, ◌-◌, ◌≤◌, ◌<◌, ◌≡◌, refl, arith, true, Bool-cases, inl, inr, nat_eq, Eq-cases,
}
use native.Mathlib.Decide.{dec_lt}
use multi_robot_fulfillment.Geometry.{Position}
use multi_robot_fulfillment.Coordination.{ReservationTable, held_by_other, vertex_reserver}
use multi_robot_fulfillment.Coordination.Vertices.{holder}
use multi_robot_fulfillment.SpaceTime.{scan_back, earliest_goal_hold, reserver}
use multi_robot_fulfillment.SpaceTime.Steps.{IsUnclaimed}
use multi_robot_fulfillment.SpaceTime.Walks.{IsParkable}

module _ (goal : Position) (table : ReservationTable) (robot_id start_time : ℕ) where
  reserver-vertex_reserver :
      (timestep : ℕ) → reserver (vertex_reserver goal timestep table).0 ≡ holder goal timestep table
  unfolding vertex_reserver
  reserver-vertex_reserver timestep = refl

  -- The scan of `count` timesteps gives the start, or the timestep after a foreign claim.
  scan_back_clear :
      (count i : ℕ)
      → scan_back goal table robot_id start_time count ≤ i
      → i < start_time + count
      → IsUnclaimed table robot_id goal i
  unfolding scan_back
  scan_back_clear zero i lo hi = absurd (omega arith)
  scan_back_clear (suc count) i lo hi = elim (Eq-cases i (start_time + count)) [
    | inl (now, _) ↦ ground (arith, reserver-vertex_reserver (start_time + count))
    | inr (ne, _) ↦
        ground (arith, reserver-vertex_reserver (start_time + count), scan_back_clear count i)
  ]

  scan_back_start : (count : ℕ) → start_time ≤ scan_back goal table robot_id start_time count
  unfolding scan_back
  scan_back_start zero = omega arith
  scan_back_start (suc count) = ground (arith, scan_back_start count)

  scan_back_least :
      (count t : ℕ)
      → start_time ≤ t
      → t < scan_back goal table robot_id start_time count
      → (i : ℕ) × (t ≤ i)
        × (i < start_time + count)
        × (held_by_other robot_id (holder goal i table) ≡ true)
  unfolding scan_back
  scan_back_least zero t lo hi = absurd (omega arith)
  scan_back_least (suc count) t lo hi =
      elim (Bool-cases (held_by_other robot_id (holder goal (start_time + count) table))) [
        | inl claimed ↦ (
          start_time + count,
          ground (arith, reserver-vertex_reserver (start_time + count)),
          omega arith,
          claimed,
        )
        | inr clear ↦
            let (i, le, lt, claimed) =
              scan_back_least count t lo
                (ground (arith, reserver-vertex_reserver (start_time + count))) in
            (i, le, omega arith, claimed)
      ]

  module _ (horizon : ℕ) where
    -- From the timestep that the scan gives the goal is free.
    pub earliest_goal_hold-IsParkable :
        IsParkable table robot_id horizon goal
          (earliest_goal_hold goal table robot_id start_time horizon)
    unfolding earliest_goal_hold
    earliest_goal_hold-IsParkable i lo hi =
        let after = scan_back_start (horizon + 1 - start_time) in
        scan_back_clear (horizon + 1 - start_time) i lo (omega arith)

    -- It is the earliest such timestep of those not before the start.
    pub earliest_goal_hold_least :
        (t : ℕ)
        → start_time ≤ t
        → t ≤ horizon
        → IsParkable table robot_id horizon goal t
        → earliest_goal_hold goal table robot_id start_time horizon ≤ t
    unfolding earliest_goal_hold
    earliest_goal_hold_least t late soon parkable =
        elim (dec_lt t (scan_back goal table robot_id start_time (horizon + 1 - start_time))) [
          | no le ↦ omega arith
          | yes lt ↦
              let (i, le, below, claimed) = scan_back_least (horizon + 1 - start_time) t late lt in
              let clear = parkable i le (omega arith) in absurd (ground arith)
        ]

    pub earliest_goal_hold-late :
        start_time ≤ earliest_goal_hold goal table robot_id start_time horizon
    unfolding earliest_goal_hold
    earliest_goal_hold-late = scan_back_start (horizon + 1 - start_time)
