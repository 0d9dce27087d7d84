-- ===== src/Search/Loop.antt =====
-- The rounds of the loop. A round drops a stale entry, ends at a goal, or finalises a state and
-- expands it.
use multi_robot_fulfillment.Common.{
  ℕ, suc, ◌≡◌, refl, inl, inr, some, List, ◌∷◌, Eq, ◌∈◌, arith, ok, Eq-cases,
}
use multi_robot_fulfillment.Common.Dict.{lookup}
use multi_robot_fulfillment.Search.{
  Entry, Search, Query, heappop, relax_all, expand, finalize, begin,
}
use multi_robot_fulfillment.Search.Frontier.{mem-heappop}
use multi_robot_fulfillment.Search.Invariant.{Graph, Link, Costs}
use multi_robot_fulfillment.Search.Expand.{Ready}

module _ {S : Type 0} ⦃e : Eq S⦄ (query : Query S) (start : S) (graph : Graph query start) where
  -- A known state can be expanded.
  pub expand-eq-ok :
      (s : Search S) (current : S) (g : ℕ)
      → Costs query start graph s
      → lookup current s.best_cost ≡ some g
      → expand query current s ≡ ok (relax_all query current (suc g) s (graph.steps current))
  unfolding expand
  expand-eq-ok s current g c at_g =
      let valid = c.is_valid current g at_g in
      ground (
        arith,
        graph.next_cost_lem s.best_cost current g at_g valid,
        graph.successors_lem current g valid,
      )

  pub begin-Costs : Costs query start graph (begin query start)
  begin-Costs = record {
    start_cost = ground (arith, (e.beq_iff start start).1);
    is_valid = λ t g k. elim (Eq-cases t start) [
      | inl (same, test) ↦
          let zero_cost : 0 ≡ g = ground arith in rw (same, ← zero_cost) graph.start_valid
      | inr (_, test) ↦ absurd (ground arith)
    ];
    linked = λ t g k. inl (ground (arith, (e.beq_iff t start).0));
    finalized_known = λ t done. absurd (ground arith);
    queued_known =
        λ y. elim [ inl same ↦ (0, ground (arith, (e.beq_iff start start).1)) | inr m ↦ absurd m ];
  }

  -- A link needs nothing of the queue, and no state leaves the finalised ones.
  carry-Link :
      (s : Search S) (current : S) (rest : List (Entry S)) (t : S) (g : ℕ)
      → Link query start graph s t g
      → Link query start graph (finalize current rest s) t g
        × Link query start graph (record s { frontier = rest }) t g
  carry-Link s current rest t g l = (
    record {
      previous = l.previous;
      cost = l.cost;
      recorded = l.recorded;
      closed = ground (arith, l.closed);
      known = l.known;
      one_more = l.one_more;
      edge = l.edge;
    },
    record {
      previous = l.previous;
      cost = l.cost;
      recorded = l.recorded;
      closed = l.closed;
      known = l.known;
      one_more = l.one_more;
      edge = l.edge;
    },
  )

  -- A round that pops the least entry of the queue.
  module _ (s : Search S) (x : Entry S) (xs : List (Entry S)) (is_front : s.frontier ≡ x ∷ xs) where
    abbrev pub least : Entry S
    least = (heappop x xs).0

    abbrev pub rest : List (Entry S)
    rest = (heappop x xs).1

    pub rest_queued : (y : Entry S) → y ∈ rest → y ∈ s.frontier
    rest_queued y m = rw is_front ((mem-heappop x xs y).1 (inr m))

    pub least_queued : least ∈ s.frontier
    least_queued = rw is_front ((mem-heappop x xs least).1 (inl refl))

    module _ (c : Costs query start graph s) where
      pub popped_known : (g : ℕ) × (lookup least.node s.best_cost ≡ some g)
      popped_known = c.queued_known least least_queued

      pub stale-Costs : Costs query start graph (record s { frontier = rest })
      stale-Costs = record {
        start_cost = c.start_cost;
        is_valid = c.is_valid;
        linked = λ t g k. elim (c.linked t g k) [
          | inl first ↦ inl first
          | inr l ↦ inr (carry-Link s least.node rest t g l).1
        ];
        finalized_known = c.finalized_known;
        queued_known = λ y m. c.queued_known y (rest_queued y m);
      }

      pub finalize-Costs : Costs query start graph (finalize least.node rest s)
      finalize-Costs = record {
        start_cost = c.start_cost;
        is_valid = c.is_valid;
        linked = λ t g k. elim (c.linked t g k) [
          | inl first ↦ inl first
          | inr l ↦ inr (carry-Link s least.node rest t g l).0
        ];
        finalized_known = λ t done. elim (Eq-cases t least.node) [
          | inl (same, _) ↦ rw same popped_known
          | inr (_, test) ↦ c.finalized_known t (ground arith)
        ];
        queued_known = λ y m. c.queued_known y (rest_queued y m);
      }

      pub finalize-Ready :
          (g : ℕ)
          → lookup least.node s.best_cost ≡ some g
          → Ready query start graph least.node g (finalize least.node rest s)
      finalize-Ready g k = record {
        costs = finalize-Costs;
        closed = ground (arith, (e.beq_iff least.node least.node).1);
        at_g = k;
      }
