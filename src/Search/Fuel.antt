-- ===== src/Search/Fuel.antt =====
-- The loop ends: each round drops a stale entry, or finalises a state of a finite universe and adds
-- at most one entry for each of its steps.
use multi_robot_fulfillment.Common.{
  ℕ, zero, suc, ◌+◌, ◌*◌, ◌≤◌, ◌<◌, ◌≡◌, refl, inl, inr, true, false, List, [], ◌∷◌, Eq, ◌∈◌,
  contains, arith, ok, some, length, Bool-cases, List-cases, ◌∙◌, if◌then◌else◌, ap,
}
use multi_robot_fulfillment.Common.Dict.{lookup}
use multi_robot_fulfillment.Search.{
  Entry, Search, Query, Ending, reached, exhausted, heappop, relax, relax_all, finalize, loop,
}
use multi_robot_fulfillment.Search.Frontier.{length-heappop}
use multi_robot_fulfillment.Search.Invariant.{Graph, Costs}
use multi_robot_fulfillment.Search.Relax.{relax_cases}
use multi_robot_fulfillment.Search.Expand.{relax_all-Ready}
use multi_robot_fulfillment.Search.Loop.{expand-eq-ok, popped_known, stale-Costs, finalize-Ready}
use multi_robot_fulfillment.Search.Rule.{loop_empty, loop_stale, loop_goal, loop_expanded}

-- How many members of a list are not finalised.
module _ {S : Type 0} ⦃e : Eq S⦄ where
  abbrev pub unfinalized : List S → List S → ℕ
  unfinalized done [] = 0
  unfinalized done (s ∷ ss) = (if contains done s then 0 else 1) + unfinalized done ss

  pub unfinalized-nil : (ss : List S) → unfinalized [] ss ≡ length ss
  unfinalized-nil [] = refl
  unfinalized-nil (s ∷ ss) = omega (arith, unfinalized-nil ss)

  unfinalized_le :
      (done : List S) (c : S) (ss : List S) → unfinalized (c ∷ done) ss ≤ unfinalized done ss
  unfinalized_le done c [] = omega arith
  unfinalized_le done c (s ∷ ss) = ground (arith, unfinalized_le done c ss)

  unfinalized_lt :
      (done : List S) (c : S) (ss : List S)
      → c ∈ ss
      → contains done c ≡ false
      → unfinalized (c ∷ done) ss < unfinalized done ss
  unfinalized_lt done c [] m new = absurd m
  unfinalized_lt done c (s ∷ ss) (inl same) new =
      ground (arith, (e.beq_iff s c).1, unfinalized_le done c ss)
  unfinalized_lt done c (s ∷ ss) (inr m) new = ground (arith, unfinalized_lt done c ss m new)

-- A finite universe that holds every valid state, and a bound on the number of steps of a state.
pub record Finite {S : Type 0} ⦃e : Eq S⦄ (query : Query S) (start : S) (graph : Graph query start)
    : Type 0 where
  pub universe : List S
  pub degree : ℕ
  pub mem-universe : (s : S) (g : ℕ) → graph.valid s g ≡ true → s ∈ universe
  pub length-steps : (s : S) → length (graph.steps s) ≤ degree

module _ {S : Type 0} ⦃e : Eq S⦄ (query : Query S) (start : S) (graph : Graph query start)
    (finite : Finite query start graph) where
  open finite use {universe, degree}

  length-relax :
      (current : S) (cost : ℕ) (s : Search S) (n : S)
      → length (relax query current cost s n).frontier ≤ length s.frontier + 1
  length-relax current cost s n = elim (relax_cases query current cost s n) [
    | inl (same, _) ↦ rw same (omega arith)
    | inr (new, _, _) ↦ rw new (omega arith)
  ]

  length-relax_all :
      (current : S) (cost : ℕ) (ns : List S) (s : Search S)
      → length (relax_all query current cost s ns).frontier ≤ length s.frontier + length ns
  unfolding relax_all
  length-relax_all current cost [] s = omega arith
  length-relax_all current cost (n ∷ ns) s = omega (
    arith,
    length-relax current cost s n,
    length-relax_all current cost ns (relax query current cost s n),
  )

  -- The entries of the queue, and those that the states still to be finalised may add.
  abbrev work : Search S → ℕ
  work s = length s.frontier + degree * unfinalized s.finalized universe

  mul_room : (d a b : ℕ) → a < b → d * a + d ≤ d * b
  mul_room d a b h = grind arith

  -- A popped state that is expanded leaves less work.
  work-expanded :
      (s : Search S) (x : Entry S) (xs : List (Entry S)) (g : ℕ)
      → s.frontier ≡ x ∷ xs
      → Costs query start graph s
      → contains s.finalized (heappop x xs).0.node ≡ false
      → lookup (heappop x xs).0.node s.best_cost ≡ some g
      → let current = (heappop x xs).0.node in
        let closed = finalize current (heappop x xs).1 s in
        work (relax_all query current (suc g) closed (graph.steps current)) < work s
  work-expanded s x xs g is_front c new k =
      let current = (heappop x xs).0.node in
      let closed = finalize current (heappop x xs).1 s in
      let ready = finalize-Ready query start graph s x xs is_front c g k in
      let steps = graph.steps current in
      let lowers = (relax_all-Ready query start graph current g steps closed (λ n m. m) ready).1 in
      let fewer =
        unfinalized_lt s.finalized current universe
          (finite.mem-universe current g (c.is_valid current g k)) new in
      let room =
        mul_room degree (unfinalized (current ∷ s.finalized) universe)
          (unfinalized s.finalized universe) fewer in
      rw lowers.same (
        omega (
          arith,
          length-relax_all current (suc g) steps closed,
          length-heappop x xs,
          ap length is_front,
          finite.length-steps current,
        ))

  -- With as much fuel as work the loop ends.
  pub loop_ends :
      (fuel : ℕ) (s : Search S)
      → Costs query start graph s
      → work s ≤ fuel
      → (ending : Ending S) × (loop query fuel s ≡ ok ending)
  loop_ends zero s c enough = elim (List-cases s.frontier) [
    | inl none_left ↦ (exhausted s, loop_empty query zero s none_left)
    | inr (x, xs, is_front) ↦ absurd (omega (arith, ap length is_front))
  ]
  loop_ends (suc fuel) s c enough = elim (List-cases s.frontier) [
    | inl none_left ↦ (exhausted s, loop_empty query (suc fuel) s none_left)
    | inr (x, xs, is_front) ↦ elim (Bool-cases (contains s.finalized (heappop x xs).0.node)) [
      | inl done ↦
          let (ending, ends) =
            loop_ends fuel (record s { frontier = (heappop x xs).1 })
              (stale-Costs query start graph s x xs is_front c)
              (omega (arith, length-heappop x xs, ap length is_front)) in
          (ending, loop_stale query fuel s x xs is_front done ∙ ends)
      | inr new ↦ elim (Bool-cases (query.is_goal (heappop x xs).0.node)) [
        | inl goal ↦ (
          reached (heappop x xs).0.node (finalize (heappop x xs).0.node (heappop x xs).1 s),
          loop_goal query fuel s x xs is_front new goal,
        )
        | inr other ↦
            let current = (heappop x xs).0.node in
            let closed = finalize current (heappop x xs).1 s in
            let (g, k) = popped_known query start graph s x xs is_front c in
            let ready = finalize-Ready query start graph s x xs is_front c g k in
            let s' = relax_all query current (suc g) closed (graph.steps current) in
            let expands = expand-eq-ok query start graph closed current g ready.costs k in
            let costs =
              (relax_all-Ready query start graph current g (graph.steps current) closed (λ n m. m)
                ready).0.costs in
            let less = work-expanded s x xs g is_front c new k in
            let (ending, ends) = loop_ends fuel s' costs (omega arith) in
            (ending, loop_expanded query fuel s x xs is_front s' new other expands ∙ ends)
      ]
    ]
  ]
