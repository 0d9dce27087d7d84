-- ===== src/Conflicts/Fleet.antt =====
-- A fleet that keeps apart passes the checks of the paths against one another: the loops over the
-- timesteps of `find_coordination_problems` of robotics/coordination/conflicts.py.
use multi_robot_fulfillment.Common.{
  ℕ, zero, suc, ◌+◌, ◌-◌, ◌≤◌, ◌≡◌, ◌≢◌, inl, inr, refl, none, some, List, [], ◌∷◌, ◌∈◌, arith,
  nat_eq, ok, last?, Eq-cases, Option-cases, sym, subst, ◌∙◌,
}
use multi_robot_fulfillment.Common.Dict.{Dict, lookup, insert, lookup-insert}
use multi_robot_fulfillment.Geometry.{Position, position_eq}
use multi_robot_fulfillment.Coordination.{TimedStep, TimedPath, position_at}
use multi_robot_fulfillment.Coordination.Reserved.{Occupies}
use multi_robot_fulfillment.Coordination.Accepted.{MovesAt}
use multi_robot_fulfillment.Coordinator.{arrival_time}
use multi_robot_fulfillment.Coordinator.Clear.{NeverSwap}
use multi_robot_fulfillment.Conflicts.{
  seen_problems, vertex_problems, MoveKey, move_eq, move_key, record_move, moves_at, swaps_in,
  swap_problems, intrusions, goal_problems_with, goal_problems, cross_problems,
}

-- What the checks rely on: where the robots are up to a timestep, and that they keep apart.
pub record IsFleet (all : List TimedPath) (limit : ℕ) : Type 0 where
  pub located :
      (p : TimedPath) (t : ℕ)
      → p ∈ all
      → t ≤ limit
      → (c : Position) × (position_at p t ≡ ok (some c)) × Occupies p limit c t
  pub moved :
      (p : TimedPath) (t : ℕ) (a b : Position)
      → p ∈ all
      → suc t ≤ limit
      → position_at p t ≡ ok (some a)
      → position_at p (suc t) ≡ ok (some b)
      → a ≢ b
      → MovesAt p.steps a b t
  pub parked :
      (p : TimedPath)
      → p ∈ all
      → (goal : TimedStep) × (last? p.steps ≡ some goal)
        × ((t : ℕ) → arrival_time p ≤ t → t ≤ limit → Occupies p limit goal.position t)
  pub apart :
      (p q : TimedPath) (c : Position) (t : ℕ)
      → p ∈ all
      → q ∈ all
      → p.robot_id ≢ q.robot_id
      → Occupies p limit c t
      → ¬ Occupies q limit c t
  pub no_swap : (p q : TimedPath) → p ∈ all → q ∈ all → p.robot_id ≢ q.robot_id → NeverSwap p q

-- No robot has two paths.
abbrev pub OneEach : List TimedPath → Type 0
OneEach [] = Unit
OneEach (p ∷ ps) = ((q : TimedPath) → q ∈ ps → p.robot_id ≢ q.robot_id) × OneEach ps

abbrev Within : List TimedPath → List TimedPath → Type 0
Within ps all = (p : TimedPath) → p ∈ ps → p ∈ all

module _ (all : List TimedPath) (limit : ℕ) (fleet : IsFleet all limit) where
  -- Each cell that was seen is held by a robot whose turn is over.
  abbrev SeenBy : ℕ → Dict Position ℕ → List TimedPath → Type 0
  SeenBy t seen ps =
      (c : Position) (r : ℕ)
      → lookup c seen ≡ some r
      → (e : TimedPath) × (e ∈ all)
        × Occupies e limit c t
        × ((q : TimedPath) → q ∈ ps → e.robot_id ≢ q.robot_id)

  module _ (t : ℕ) (soon : t ≤ limit) where
    seen_step :
        (p : TimedPath) (ps : List TimedPath) (seen : Dict Position ℕ) (c : Position)
        → position_at p t ≡ ok (some c)
        → lookup c seen ≡ none
        → seen_problems t seen (p ∷ ps) ≡ seen_problems t (insert c p.robot_id seen) ps
    unfolding seen_problems
    seen_step p ps seen c says new = ground arith

    seen_next :
        (p : TimedPath) (ps : List TimedPath) (seen : Dict Position ℕ) (c : Position)
        → p ∈ all
        → Occupies p limit c t
        → OneEach (p ∷ ps)
        → SeenBy t seen (p ∷ ps)
        → SeenBy t (insert c p.robot_id seen) ps
    seen_next p ps seen c m here one by d r h = elim (Eq-cases d c) [
      | inl (same, test) ↦ (p, m, rw same here, one.0)
      | inr (ne, test) ↦
          let (e, m', there, others) = by d r (ground (arith, lookup-insert c d p.robot_id seen)) in
          (e, m', there, λ q n. others q (inr n))
    ]

    seen_problems-nil :
        (ps : List TimedPath) (seen : Dict Position ℕ)
        → Within ps all
        → OneEach ps
        → SeenBy t seen ps
        → seen_problems t seen ps ≡ ok []
    unfolding seen_problems
    seen_problems-nil [] seen within one by = refl
    seen_problems-nil (p ∷ ps) seen within one by =
        let (c, says, here) = fleet.located p t (within p (inl refl)) soon in
        elim (Option-cases (lookup c seen)) [
          | inr (r, old) ↦
              let (e, m, there, others) = by c r old in
              absurd (fleet.apart e p c t m (within p (inl refl)) (others p (inl refl)) there here)
          | inl new ↦
              seen_step p ps seen c says new
              ∙ seen_problems-nil ps (insert c p.robot_id seen) (λ q m. within q (inr m)) one.1
                  (seen_next p ps seen c (within p (inl refl)) here one by)
        ]

  vertex_problems-nil :
      (t count : ℕ) → OneEach all → t + count ≤ suc limit → vertex_problems all t count ≡ ok []
  unfolding vertex_problems
  vertex_problems-nil t zero one le = refl
  vertex_problems-nil t (suc count) one le =
      rw
        (
          seen_problems-nil t (omega arith) all [] (λ p m. m) one (λ c r h. ground arith),
          vertex_problems-nil (suc t) count one (omega arith),
        )
        refl

  -- A move that some robot of the fleet makes.
  record Made (t : ℕ) (k : MoveKey) (r : ℕ) : Type 0 where
    pub path : TimedPath
    pub member : path ∈ all
    pub name : path.robot_id ≡ r
    pub makes : MovesAt path.steps k.from_cell k.to_cell t
    pub differ : k.from_cell ≢ k.to_cell

  abbrev AllMade : ℕ → Dict MoveKey ℕ → Type 0
  AllMade t [] = Unit
  AllMade t ((k, r) ∷ moves) = Made t k r × AllMade t moves

  lookup-Made :
      (t : ℕ) (k : MoveKey) (r : ℕ) (moves : Dict MoveKey ℕ)
      → AllMade t moves
      → lookup k moves ≡ some r
      → Made t k r
  lookup-Made t k r [] all_made h = absurd (ground arith)
  lookup-Made t k r ((j, o) ∷ moves) all_made h = elim (Eq-cases k j) [
    | inl (same, test) ↦ let owner : o ≡ r = ground arith in rw (same, ← owner) all_made.0
    | inr (_, test) ↦ lookup-Made t k r moves all_made.1 (ground arith)
  ]

  insert-AllMade :
      (t : ℕ) (k : MoveKey) (r : ℕ) (moves : Dict MoveKey ℕ)
      → AllMade t moves
      → Made t k r
      → AllMade t (insert k r moves)
  insert-AllMade t k r [] all_made made = (made, tt)
  insert-AllMade t k r ((j, o) ∷ moves) all_made made = elim (Eq-cases k j) [
    | inl (same, test) ↦ rw test (rw (← same) made, all_made.1)
    | inr (_, test) ↦ rw test (all_made.0, insert-AllMade t k r moves all_made.1 made)
  ]

  record_move-AllMade :
      (t : ℕ) (p : TimedPath) (a b : Position) (moves : Dict MoveKey ℕ)
      → p ∈ all
      → (a ≢ b → MovesAt p.steps a b t)
      → AllMade t moves
      → AllMade t (record_move (some a) (some b) p.robot_id moves)
  unfolding record_move
  record_move-AllMade t p a b moves m makes all_made = elim (Eq-cases a b) [
    | inl (_, test) ↦ rw test all_made
    | inr (ne, test) ↦ rw test (
        insert-AllMade t (move_key a b) p.robot_id moves all_made
          (record { path = p; member = m; name = refl; makes = makes ne; differ = ne }))
  ]

  -- The moves of one timestep are those of the fleet.
  moves_at-AllMade :
      (t : ℕ) (ps : List TimedPath) (moves : Dict MoveKey ℕ)
      → suc t ≤ limit
      → Within ps all
      → AllMade t moves
      → (moves' : Dict MoveKey ℕ) × (moves_at t moves ps ≡ ok moves') × AllMade t moves'
  unfolding moves_at
  moves_at-AllMade t [] moves soon within all_made = (moves, refl, all_made)
  moves_at-AllMade t (p ∷ ps) moves soon within all_made =
      let m = within p (inl refl) in
      let (a, says, _) = fleet.located p t m (omega arith) in
      let (b, says', _) = fleet.located p (suc t) m soon in
      let next : t + 1 ≡ suc t = omega arith in
      let (moves', returns, made) =
        moves_at-AllMade t ps (record_move (some a) (some b) p.robot_id moves) soon
          (λ q n. within q (inr n))
          (record_move-AllMade t p a b moves m (fleet.moved p t a b m soon says says') all_made) in
      (moves', rw (next, says, says') returns, made)

  -- No move of the fleet is made backwards by another robot.
  swaps_in-nil :
      (t : ℕ) (moves entries : Dict MoveKey ℕ)
      → AllMade t moves
      → AllMade t entries
      → swaps_in t moves entries ≡ []
  unfolding swaps_in
  swaps_in-nil t moves [] all_made made = refl
  swaps_in-nil t moves ((k, rid) ∷ entries) all_made made =
      let rest = swaps_in-nil t moves entries all_made made.1 in
      elim (Option-cases (lookup (move_key k.to_cell k.from_cell) moves)) [
        | inl nobody ↦ ground arith
        | inr (other, found) ↦
            let there = lookup-Made t (move_key k.to_cell k.from_cell) other moves all_made found in
            let here = made.0 in
            elim (Eq-cases other rid) [
              | inl (_, test) ↦ ground arith
              | inr (ne, _) ↦
                  let differ : here.path.robot_id ≢ there.path.robot_id =
                    λ same. ne (sym there.name ∙ (sym same ∙ here.name)) in
                  absurd (
                    fleet.no_swap here.path there.path here.member there.member differ k.from_cell
                      k.to_cell t here.differ here.makes there.makes)
            ]
      ]

  swap_problems-nil : (t count : ℕ) → t + count ≤ limit → swap_problems all t count ≡ ok []
  unfolding swap_problems
  swap_problems-nil t zero le = refl
  swap_problems-nil t (suc count) le =
      let (moves, returns, made) = moves_at-AllMade t all [] (omega arith) (λ p m. m) tt in
      rw
        (
          returns,
          swap_problems-nil (suc t) count (omega arith),
          swaps_in-nil t moves moves made made,
        )
        refl

  module _ (p : TimedPath) (m : p ∈ all) (goal : Position)
      (holds : (t : ℕ) → arrival_time p ≤ t → t ≤ limit → Occupies p limit goal t) where
    intrusions-nil :
        (other : TimedPath) (t count : ℕ)
        → other ∈ all
        → p.robot_id ≢ other.robot_id
        → arrival_time p ≤ t
        → t + count ≤ suc limit
        → intrusions p goal other t count ≡ ok []
    unfolding intrusions
    intrusions-nil other t zero m' ne late le = refl
    intrusions-nil other t (suc count) m' ne late le =
        let (c, says, there) = fleet.located other t m' (omega arith) in
        let rest = intrusions-nil other (suc t) count m' ne (omega arith) (omega arith) in
        elim (Eq-cases c goal) [
          | inl (same, _) ↦ absurd (
              fleet.apart p other goal t m m' ne (holds t late (omega arith))
                (subst (λ d. Occupies other limit d t) same there))
          | inr (_, test) ↦ ground arith
        ]

    goal_problems_with-nil :
        (horizon : ℕ) (others : List TimedPath)
        → horizon ≤ limit
        → arrival_time p ≤ horizon
        → Within others all
        → goal_problems_with p goal horizon others ≡ ok []
    unfolding goal_problems_with
    goal_problems_with-nil horizon [] le in_time within = refl
    goal_problems_with-nil horizon (other ∷ others) le in_time within =
        let rest = goal_problems_with-nil horizon others le in_time (λ q n. within q (inr n)) in
        elim (Eq-cases other.robot_id p.robot_id) [
          | inl (_, test) ↦ ground arith
          | inr (ne, test) ↦
              let clear =
                intrusions-nil other (arrival_time p) (horizon + 1 - arrival_time p)
                  (within other (inl refl)) (λ same. ne (sym same)) (omega arith) (omega arith) in
              ground arith
        ]

  goal_problems-nil :
      (horizon : ℕ) (ps : List TimedPath)
      → horizon ≤ limit
      → ((p : TimedPath) → p ∈ ps → arrival_time p ≤ horizon)
      → Within ps all
      → goal_problems all horizon ps ≡ ok []
  unfolding goal_problems
  goal_problems-nil horizon [] le in_time within = refl
  goal_problems-nil horizon (p ∷ ps) le in_time within =
      let m = within p (inl refl) in
      let (goal, is_last, holds) = fleet.parked p m in
      let first =
        goal_problems_with-nil p m goal.position holds horizon all le (in_time p (inl refl))
          (λ q n. n) in
      let rest =
        goal_problems-nil horizon ps le (λ q n. in_time q (inr n)) (λ q n. within q (inr n)) in
      ground arith

  -- The three checks find nothing up to the last arrival.
  pub cross_problems-nil :
      (first horizon : ℕ)
      → OneEach all
      → first ≤ horizon
      → horizon ≤ limit
      → ((p : TimedPath) → p ∈ all → arrival_time p ≤ horizon)
      → cross_problems all first horizon ≡ ok []
  unfolding cross_problems
  cross_problems-nil first horizon one start le in_time =
      rw
        (
          vertex_problems-nil first (horizon + 1 - first) one (omega arith),
          swap_problems-nil first (horizon - first) (omega arith),
          goal_problems-nil horizon all le in_time (λ p m. m),
        )
        refl
