-- ===== src/Search/Relax.antt =====
-- One neighbour, and the loop over the neighbours of the state that is expanded.
use multi_robot_fulfillment.Common.{
  ℕ, suc, ◌+◌, ◌≤◌, ◌≡◌, ◌≢◌, refl, ◌⊎◌, inl, inr, true, false, some, ◌∷◌, Eq, ◌∈◌, contains, arith,
  Eq-cases, Bool-cases, ◌&&◌, ◌∙◌, ap,
}
use multi_robot_fulfillment.Common.Dict.{lookup, insert, lookup-insert}
use multi_robot_fulfillment.Search.{Entry, Search, Query, relax, improves}
use multi_robot_fulfillment.Search.Invariant.{Graph, Link, Costs, Complete, Consistent}

module _ {S : Type 0} ⦃e : Eq S⦄ (query : Query S) where
  -- The search after a neighbour was found at a better cost.
  abbrev pub improved : S → ℕ → Search S → S → Search S
  improved current cost s n = record s {
    frontier =
        record {
          rank = (query.order cost n).0;
          tie = (query.order cost n).1;
          insertion_order = s.next_order;
          node = n;
        }
        ∷ s.frontier;
    best_cost = insert n cost s.best_cost;
    came_from = insert n current s.came_from;
    next_order = s.next_order + 1;
  }

  pub relax_cases :
      (current : S) (cost : ℕ) (s : Search S) (n : S)
      → (relax query current cost s n ≡ s)
          × ((query.skips_finalized && contains s.finalized n ≡ true)
              ⊎ (improves cost (lookup n s.best_cost) ≡ false))
        ⊎ (relax query current cost s n ≡ improved current cost s n)
          × (query.skips_finalized && contains s.finalized n ≡ false)
          × (improves cost (lookup n s.best_cost) ≡ true)
  unfolding relax
  relax_cases current cost s n = ground arith

module _ {S : Type 0} ⦃e : Eq S⦄ (query : Query S) (start : S) (graph : Graph query start)
    (current : S) (g : ℕ) (s : Search S) (n : S) (c : Costs query start graph s)
    (closed : contains s.finalized current ≡ true) (at_g : lookup current s.best_cost ≡ some g)
    (edge : n ∈ graph.steps current) (better : improves (suc g) (lookup n s.best_cost) ≡ true)
    (passed : query.skips_finalized && contains s.finalized n ≡ false) where
  abbrev after : Search S
  after = improved query current (suc g) s n

  -- What is improved was not finalised.
  open_node : contains s.finalized n ≡ false
  open_node = elim (Bool-cases (contains s.finalized n)) [
    | inr no_n ↦ no_n
    | inl yes_n ↦ elim graph.final [
      | inl skips ↦ ground arith
      | inr unique ↦
          let (old, known) = c.finalized_known n yes_n in
          let same =
            unique n old (suc g) (c.is_valid n old known)
              (graph.step_valid current n g (c.is_valid current g at_g) edge) in
          absurd (ground arith)
    ]
  ]

  not_start : start ≢ n
  not_start same = ground (arith, c.start_cost)

  -- A finalised state keeps its cost.
  pub kept :
      (t : S) → contains s.finalized t ≡ true → lookup t after.best_cost ≡ lookup t s.best_cost
  kept t h = elim (Eq-cases t n) [
    | inl (same, _) ↦ absurd (ground (arith, open_node))
    | inr (_, test) ↦ ground (arith, lookup-insert n t (suc g) s.best_cost)
  ]

  kept-Link :
      (t : S) (h : ℕ) → t ≢ n → Link query start graph s t h → Link query start graph after t h
  kept-Link t h ne l = record {
    previous = l.previous;
    cost = l.cost;
    recorded = ground (arith, lookup-insert n t current s.came_from, (e.beq_iff t n).0, l.recorded);
    closed = l.closed;
    known = ground (arith, kept l.previous l.closed, l.known);
    one_more = l.one_more;
    edge = l.edge;
  }

  pub grows :
      (t : S) (h : ℕ)
      → lookup t s.best_cost ≡ some h
      → (h' : ℕ) × (lookup t after.best_cost ≡ some h') × (h' ≤ h)
  grows t h k = elim (Eq-cases t n) [
    | inl (same, test) ↦
        (suc g, ground (arith, lookup-insert n t (suc g) s.best_cost), ground arith)
    | inr (_, test) ↦ (h, ground (arith, lookup-insert n t (suc g) s.best_cost), omega arith)
  ]

  -- A cost after the improvement is the new one, or an old one of another state.
  cost_cases :
      (t : S) (h : ℕ)
      → lookup t after.best_cost ≡ some h
      → (t ≡ n) × (suc g ≡ h) ⊎ (t ≢ n) × (lookup t s.best_cost ≡ some h)
  cost_cases t h k = elim (Eq-cases t n) [
    | inl (same, test) ↦ inl (same, ground (arith, lookup-insert n t (suc g) s.best_cost))
    | inr (ne, test) ↦ inr (ne, ground (arith, lookup-insert n t (suc g) s.best_cost))
  ]

  new-Link : Link query start graph after n (suc g)
  new-Link = record {
    previous = current;
    cost = g;
    recorded = ground (arith, lookup-insert n n current s.came_from, (e.beq_iff n n).1);
    closed = closed;
    known = kept current closed ∙ at_g;
    one_more = refl;
    edge = edge;
  }

  pub improved-Costs : Costs query start graph after
  improved-Costs = record {
    start_cost = ground (
      arith,
      lookup-insert n start (suc g) s.best_cost,
      (e.beq_iff start n).0,
      not_start,
      c.start_cost,
    );
    is_valid = λ t h k. elim (cost_cases t h k) [
      | inl (same, cost) ↦
          rw (same, ← cost) (graph.step_valid current n g (c.is_valid current g at_g) edge)
      | inr (_, old) ↦ c.is_valid t h old
    ];
    linked = λ t h k. elim (cost_cases t h k) [
      | inl (same, cost) ↦ inr (rw (same, ← cost) new-Link)
      | inr (ne, old) ↦ elim (c.linked t h old) [
        | inl first ↦ inl first
        | inr link ↦ inr (kept-Link t h ne link)
      ]
    ];
    finalized_known = λ t h. let (old, known) = c.finalized_known t h in (old, kept t h ∙ known);
    queued_known = λ x. elim [
      | inl new ↦ (suc g, ground (arith, lookup-insert n n (suc g) s.best_cost, (e.beq_iff n n).1))
      | inr m ↦
          let (old, known) = c.queued_known x m in
          let (cost, now, _) = grows x.node old known in (cost, now)
    ];
  }

  -- No finalised state has a higher rank than the state that is expanded.
  module _ (consistent : Consistent query start graph)
      (top : (t : S) (h : ℕ)
        → contains s.finalized t ≡ true
        → lookup t s.best_cost ≡ some h
        → h + consistent.estimate t ≤ g + consistent.estimate current)
      (f : Complete query start graph consistent (λ t. t ≡ current) s) where
    open consistent use {estimate, rank_lem}

    -- The new entry's rank is no lower than that of the state that is expanded.
    new_rank : g + estimate current ≤ (query.order (suc g) n).0
    new_rank = omega (
      arith,
      rank_lem (suc g) n,
      consistent.estimate_step current n g (c.is_valid current g at_g) edge,
    )

    ranked_after :
        (x : Entry S) (h : ℕ)
        → x ∈ after.frontier
        → lookup x.node after.best_cost ≡ some h
        → h + estimate x.node ≤ x.rank
    ranked_after x h (inl new) k = elim (cost_cases x.node h k) [
      | inl (same, cost) ↦ ground (arith, rank_lem (suc g) n)
      | inr (ne, old) ↦ absurd (ne (ap (λ y. y.node) new))
    ]
    ranked_after x h (inr m) k = elim (cost_cases x.node h k) [
      | inl (same, cost) ↦
          let (a, known) = c.queued_known x m in let old = f.ranked x a m known in ground arith
      | inr (ne, old) ↦ f.ranked x h m old
    ]

    pub improved-Complete : Complete query start graph consistent (λ t. t ≡ current) after
    improved-Complete = record {
      waiting = λ t h k. elim (cost_cases t h k) [
        | inl (same, cost) ↦ inr (
            rw (same, ← cost)
              (
                record {
                  rank = (query.order (suc g) n).0;
                  tie = (query.order (suc g) n).1;
                  insertion_order = s.next_order;
                  node = n;
                },
                inl refl,
                refl,
                refl,
              ))
        | inr (_, old) ↦ elim (f.waiting t h old) [
          | inl done ↦ inl done
          | inr (x, m, is_t, ranked) ↦ inr (x, inr m, is_t, ranked)
        ]
      ];
      settled = λ t h. elim (f.settled t h) [
        | inl busy ↦ inl busy
        | inr old ↦ inr (λ cost u k m.
            let (cost', known, le) = old cost u (ground (arith, kept t h)) m in
            let (now, known', le') = grows u cost' known in (now, known', omega arith))
      ];
      no_goal = f.no_goal;
      ranked = λ x h m k. ranked_after x h m k;
      ordered = λ t x h done. elim [
        | inl new ↦ λ k.
            let old = top t h done (ground (arith, kept t done)) in
            let rank : x.rank ≡ (query.order (suc g) n).0 = ap (λ y. y.rank) new in
            omega (arith, new_rank)
        | inr m ↦ λ k. f.ordered t x h done m (ground (arith, kept t done))
      ];
    }
