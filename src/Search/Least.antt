-- ===== src/Search/Least.antt =====
-- What the end of the loop says: of the cost of the goal, and of the goals when none was reached.
use multi_robot_fulfillment.Common.{
  ℕ, suc, ◌≤◌, ◌≡◌, inl, inr, true, false, some, List, [], ◌∷◌, Eq, ◌∈◌, contains, arith, ok, subst,
}
use multi_robot_fulfillment.Common.Dict.{lookup}
use multi_robot_fulfillment.Search.{
  Entry, Search, Query, Ending, reached, exhausted, heappop, relax_all, expand, finalize, loop,
  begin,
}
use multi_robot_fulfillment.Search.Frontier.{heappop_least}
use multi_robot_fulfillment.Search.Invariant.{Graph, Walk, Costs, Consistent}
use multi_robot_fulfillment.Search.Expand.{relax_all-Ready, relax_all-Front}
use multi_robot_fulfillment.Search.Loop.{
  begin-Costs, expand-eq-ok, popped_known, stale-Costs, finalize-Ready,
}
use multi_robot_fulfillment.Search.Optimal.{
  Inv, Walk-front, begin-Inv, stale-Inv, top_rank, finalize-Front,
}
use multi_robot_fulfillment.Search.Rule.{loop_rule}

module _ {S : Type 0} ⦃e : Eq S⦄ (query : Query S) (start : S) (graph : Graph query start) where
  -- At a goal, its cost is known and its predecessors are recorded.
  pub record Reaches (s : S) (st : Search S) : Type 0 where
    pub is_goal : query.is_goal s ≡ true
    pub costs : Costs query start graph st
    pub cost : ℕ
    pub at_cost : lookup s st.best_cost ≡ some cost

  abbrev pub Sound : Ending S → Type 0
  Sound (reached s st) = Reaches s st
  Sound (exhausted st) = Unit

  expanded-Costs :
      (s s' : Search S) (x : Entry S) (xs : List (Entry S))
      → Costs query start graph s
      → s.frontier ≡ x ∷ xs
      → expand query (heappop x xs).0.node (finalize (heappop x xs).0.node (heappop x xs).1 s)
        ≡ ok s'
      → Costs query start graph s'
  expanded-Costs s s' x xs c is_front expands =
      let current = (heappop x xs).0.node in
      let closed = finalize current (heappop x xs).1 s in
      let (g, k) = popped_known query start graph s x xs is_front c in
      let ready = finalize-Ready query start graph s x xs is_front c g k in
      let after = relax_all query current (suc g) closed (graph.steps current) in
      let same : after ≡ s' = cc (expand-eq-ok query start graph closed current g ready.costs k) in
      subst (Costs query start graph) same
        (relax_all-Ready query start graph current g (graph.steps current) closed (λ n m. m)
          ready).0.costs

  goal-Reaches :
      (s : Search S) (x : Entry S) (xs : List (Entry S))
      → Costs query start graph s
      → s.frontier ≡ x ∷ xs
      → query.is_goal (heappop x xs).0.node ≡ true
      → Reaches (heappop x xs).0.node (finalize (heappop x xs).0.node (heappop x xs).1 s)
  goal-Reaches s x xs c is_front goal =
      let (g, k) = popped_known query start graph s x xs is_front c in
      record {
        is_goal = goal;
        costs = (finalize-Ready query start graph s x xs is_front c g k).costs;
        cost = g;
        at_cost = k;
      }

  pub loop-Sound :
      (fuel : ℕ) (ending : Ending S)
      → loop query fuel (begin query start) ≡ ok ending
      → Sound ending
  loop-Sound fuel ending =
      loop_rule query (Costs query start graph) Sound
        (record {
          stale = λ s x xs c is_front _. stale-Costs query start graph s x xs is_front c;
          goal = λ s x xs c is_front _ goal. goal-Reaches s x xs c is_front goal;
          expanded = λ s s' x xs c is_front _ _. expanded-Costs s s' x xs c is_front;
          empty = λ s c _. tt;
        })
        fuel (begin query start) ending (begin-Costs query start graph)

  module _ (consistent : Consistent query start graph) where
    -- No goal is nearer than the one that was reached; an empty queue means that none is reachable.
    abbrev pub Least : Ending S → Type 0
    Least (reached s st) =
        (g : ℕ)
        → lookup s st.best_cost ≡ some g
        → (n : ℕ) (t : S) → Walk graph.steps start n t
        → query.is_goal t ≡ true
        → g ≤ n
    Least (exhausted st) = (n : ℕ) (t : S) → Walk graph.steps start n t → query.is_goal t ≡ false

    expanded-Inv :
        (s s' : Search S) (x : Entry S) (xs : List (Entry S))
        → Inv query start graph consistent s
        → s.frontier ≡ x ∷ xs
        → contains s.finalized (heappop x xs).0.node ≡ false
        → query.is_goal (heappop x xs).0.node ≡ false
        → expand query (heappop x xs).0.node (finalize (heappop x xs).0.node (heappop x xs).1 s)
          ≡ ok s'
        → Inv query start graph consistent s'
    expanded-Inv s s' x xs i is_front new other expands =
        let current = (heappop x xs).0.node in
        let closed = finalize current (heappop x xs).1 s in
        let (g, k) = popped_known query start graph s x xs is_front i.costs in
        let front = finalize-Front query start graph consistent s x xs is_front i g k new other in
        let after = relax_all query current (suc g) closed (graph.steps current) in
        let same : after ≡ s' =
          cc (expand-eq-ok query start graph closed current g front.ready.costs k) in
        let (fr, bounds) =
          relax_all-Front query start graph current g consistent (graph.steps current) closed
            (λ n m. m) front in
        subst (Inv query start graph consistent) same (record {
          costs = fr.ready.costs;
          complete = record {
            waiting = fr.complete.waiting;
            settled = λ t done. elim (fr.complete.settled t done) [
              | inr settled ↦ inr settled
              | inl is_current ↦ inr (λ h u l m.
                  let at_g = fr.ready.at_g in
                  let same_cost : h ≡ g = ground arith in
                  let (h', l', le) = bounds u (subst (λ c. u ∈ graph.steps c) is_current m) in
                  (h', l', omega arith))
            ];
            no_goal = fr.complete.no_goal;
            ranked = fr.complete.ranked;
            ordered = fr.complete.ordered;
          };
        })

    goal-Least :
        (s : Search S) (x : Entry S) (xs : List (Entry S))
        → Inv query start graph consistent s
        → s.frontier ≡ x ∷ xs
        → contains s.finalized (heappop x xs).0.node ≡ false
        → query.is_goal (heappop x xs).0.node ≡ true
        → Least (reached (heappop x xs).0.node (finalize (heappop x xs).0.node (heappop x xs).1 s))
    goal-Least s x xs i is_front new goal g k n t w is_goal =
        elim (Walk-front query start graph consistent s i w) [
          | inl (_, _, done, _) ↦ absurd (ground (arith, i.complete.no_goal t done))
          | inr (y, m, le) ↦ omega (
            arith,
            heappop_least x xs y (subst (λ q. y ∈ q) is_front m),
            top_rank query start graph consistent s x xs is_front i g k new,
            consistent.estimate_goal t is_goal,
            consistent.estimate_goal (heappop x xs).0.node goal,
          )
        ]

    empty-Least :
        (s : Search S) → Inv query start graph consistent s → s.frontier ≡ [] → Least (exhausted s)
    empty-Least s i none_left n t w = elim (Walk-front query start graph consistent s i w) [
      | inl (_, _, done, _) ↦ i.complete.no_goal t done
      | inr (y, m, _) ↦ absurd (subst (λ q. y ∈ q) none_left m)
    ]

    pub loop-Least :
        (fuel : ℕ) (ending : Ending S)
        → loop query fuel (begin query start) ≡ ok ending
        → Least ending
    loop-Least fuel ending =
        loop_rule query (Inv query start graph consistent) Least
          (record {
            stale = λ s x xs i is_front done.
                stale-Inv query start graph consistent s x xs is_front i done;
            goal = goal-Least;
            expanded = expanded-Inv;
            empty = empty-Least;
          })
          fuel (begin query start) ending (begin-Inv query start graph consistent)
