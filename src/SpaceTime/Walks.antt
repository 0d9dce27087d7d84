-- ===== src/SpaceTime/Walks.antt =====
-- What a robot may do under the reservations of others, and the routes of the search as timed paths.
use multi_robot_fulfillment.Common.{
  ℕ, zero, suc, ◌+◌, ◌≤◌, ◌<◌, ◌≡◌, inl, inr, refl, true, some, List, [], ◌∷◌, map, arith, last?,
  subst, sym,
}
use multi_robot_fulfillment.Geometry.{Position, is_adjacent_to}
use multi_robot_fulfillment.Warehouse
use multi_robot_fulfillment.Warehouse.{Warehouse}
use multi_robot_fulfillment.Search.Invariant.{Walk, here, step}
use multi_robot_fulfillment.Search.Route.{Chain, IsRoute}
use multi_robot_fulfillment.Planning.Cells.{CellWalk, stand, move}
use multi_robot_fulfillment.Coordination.{
  TimedStep, VertexKey, vertex_eq, ReservationTable, last_step,
}
use multi_robot_fulfillment.Coordination.Positions.{IsTimed}
use multi_robot_fulfillment.SpaceTime.{Trip, state_at, step_of}
use multi_robot_fulfillment.SpaceTime.Steps.{
  IsUnclaimed, IsUnopposed, Advances, trip_steps, mem-trip_steps,
}

-- A robot's walk of `n` timesteps from `start`: in each it stays or moves to an adjacent free cell,
-- always on a cell that no other robot holds then, never against another robot's move, and by the
-- horizon at the latest.
pub data TimedWalk (w : Warehouse) (table : ReservationTable) (robot_id start_time horizon : ℕ)
    (start : Position) : ℕ → Position → Type 0 where
  depart :
      start_time ≤ horizon
      → Warehouse.is_traversable w start ≡ true
      → IsUnclaimed table robot_id start start_time
      → TimedWalk w table robot_id start_time horizon start zero start
  pause :
      {n : ℕ} {p : Position}
      → TimedWalk w table robot_id start_time horizon start n p
      → start_time + n < horizon
      → IsUnclaimed table robot_id p (suc (start_time + n))
      → TimedWalk w table robot_id start_time horizon start (suc n) p
  advance :
      {n : ℕ} {p q : Position}
      → TimedWalk w table robot_id start_time horizon start n p
      → start_time + n < horizon
      → is_adjacent_to p q ≡ true
      → Warehouse.is_traversable w q ≡ true
      → IsUnclaimed table robot_id q (suc (start_time + n))
      → IsUnopposed table robot_id p q (start_time + n)
      → TimedWalk w table robot_id start_time horizon start (suc n) q

-- No other robot holds the cell from the timestep through the horizon.
abbrev pub IsParkable : ReservationTable → ℕ → ℕ → Position → ℕ → Type 0
IsParkable table robot_id horizon cell timestep =
    (i : ℕ) → timestep ≤ i → i ≤ horizon → IsUnclaimed table robot_id cell i

module _ (trip : Trip) (start : Position) where
  open trip use {warehouse, reservations, robot_id, start_time, horizon}

  abbrev pub TripWalk : ℕ → Position → Type 0
  TripWalk n p = TimedWalk warehouse reservations robot_id start_time horizon start n p

  pub TripWalk-free :
      {n : ℕ} {p : Position}
      → TripWalk n p
      → (Warehouse.is_traversable warehouse start ≡ true)
        × (Warehouse.is_traversable warehouse p ≡ true)
        × IsUnclaimed reservations robot_id start start_time
        × (start_time + n ≤ horizon)
  TripWalk-free (depart soon free clear) = (free, free, clear, omega arith)
  TripWalk-free (pause walk soon clear) =
      let (first, free, held, _) = TripWalk-free walk in (first, free, held, omega arith)
  TripWalk-free (advance walk soon near free clear way) =
      let (first, _, held, _) = TripWalk-free walk in (first, free, held, omega arith)

  -- Without its waits it is a walk over the floor.
  pub TripWalk-CellWalk :
      {n : ℕ} {p : Position} → TripWalk n p → (k : ℕ) × CellWalk warehouse start k p
  TripWalk-CellWalk (depart soon free clear) = (zero, stand free)
  TripWalk-CellWalk (pause walk soon clear) = TripWalk-CellWalk walk
  TripWalk-CellWalk (advance walk soon near free clear way) =
      let (k, walked) = TripWalk-CellWalk walk in (suc k, move walked near free)

  -- It is a walk of the search's graph.
  pub TripWalk-Walk :
      {n : ℕ} {p : Position}
      → TripWalk n p
      → Walk (trip_steps trip) (state_at start start_time) n (state_at p (start_time + n))
  TripWalk-Walk (depart soon free clear) =
      subst (λ t. Walk (trip_steps trip) (state_at start start_time) zero (state_at start t))
        (omega arith) here
  TripWalk-Walk (pause {n} {p} walk soon clear) = step (TripWalk-Walk walk) (
      (mem-trip_steps trip (state_at p (start_time + n)) (state_at p (start_time + suc n))).1
        (record {
          in_time = soon;
          next = omega arith;
          unclaimed = clear;
          free = (TripWalk-free walk).1;
          way = inl refl;
        }))
  TripWalk-Walk (advance {n} {p} {q} walk soon near free clear way) = step (TripWalk-Walk walk) (
      (mem-trip_steps trip (state_at p (start_time + n)) (state_at q (start_time + suc n))).1
        (record {
          in_time = soon;
          next = omega arith;
          unclaimed = clear;
          free = free;
          way = inr (near, way);
        }))

abbrev pub state_of : TimedStep → VertexKey
state_of s = state_at s.position s.timestep

-- Each step of a timed path is a step of the search.
module _ (w : Warehouse) (table : ReservationTable) (robot_id horizon : ℕ) where
  abbrev pub IsLegal : TimedStep → List TimedStep → Type 0
  IsLegal s [] = Unit
  IsLegal s (q ∷ qs) = Advances w table robot_id horizon (state_of s) (state_of q) × IsLegal q qs

  pub IsLegal-IsTimed : (s : TimedStep) (ss : List TimedStep) → IsLegal s ss → IsTimed s ss
  IsLegal-IsTimed s [] legal = tt
  IsLegal-IsTimed s (q ∷ qs) (a, legal) = (a.next, IsLegal-IsTimed q qs legal)

  pub IsLegal-soon :
      (s : TimedStep) (ss : List TimedStep)
      → IsLegal s ss
      → s.timestep ≤ horizon
      → (last_step s ss).timestep ≤ horizon
  IsLegal-soon s [] legal soon = soon
  IsLegal-soon s (q ∷ qs) (a, legal) soon =
      IsLegal-soon q qs legal (omega (arith, a.in_time, a.next))

Chain-IsLegal :
    (trip : Trip) (s : VertexKey) (ss : List VertexKey)
    → Chain (trip_steps trip) (s ∷ ss)
    → IsLegal trip.warehouse trip.reservations trip.robot_id trip.horizon
        (step_of s)
        (map step_of ss)
Chain-IsLegal trip s [] chain = tt
Chain-IsLegal trip s (q ∷ qs) (m, chain) =
    ((mem-trip_steps trip s q).0 m, Chain-IsLegal trip q qs chain)

last_step-map :
    (s at : VertexKey) (ss : List VertexKey)
    → last? (s ∷ ss) ≡ some at
    → last_step (step_of s) (map step_of ss) ≡ step_of at
last_step-map s at [] l = ground arith
last_step-map s at (q ∷ qs) l = last_step-map q at qs l

-- A route of the search as the steps of a timed path.
pub record IsTimedRoute (trip : Trip) (start : Position) (at : VertexKey) (steps : List TimedStep)
    : Type 0 where
  pub others : List TimedStep
  pub begins : steps ≡ step_of (state_at start trip.start_time) ∷ others
  pub legal :
      IsLegal trip.warehouse trip.reservations trip.robot_id trip.horizon
        (step_of (state_at start trip.start_time))
        others
  pub ends : last_step (step_of (state_at start trip.start_time)) others ≡ step_of at

pub IsRoute-IsTimedRoute :
    (trip : Trip) (start : Position) (at : VertexKey) (cost : ℕ) (chain : List VertexKey)
    → IsRoute (trip_steps trip) (state_at start trip.start_time) at cost chain
    → IsTimedRoute trip start at (map step_of chain)
IsRoute-IsTimedRoute trip start at cost [] route = absurd (ground (arith, route.first))
IsRoute-IsTimedRoute trip start at cost (s ∷ ss) route =
    let same : s ≡ state_at start trip.start_time = ground (arith, route.first) in
    subst
      (λ f.
        IsLegal trip.warehouse trip.reservations trip.robot_id trip.horizon (step_of f)
          (map step_of ss)
        → last_step (step_of f) (map step_of ss) ≡ step_of at
        → IsTimedRoute trip start at (step_of f ∷ map step_of ss))
      (sym same)
      (λ legal ends. record { others = map step_of ss; begins = refl; legal = legal; ends = ends })
      (Chain-IsLegal trip s ss route.chain) (last_step-map s at ss route.last)
