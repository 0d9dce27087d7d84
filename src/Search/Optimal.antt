-- ===== src/Search/Optimal.antt =====
-- With a consistent estimate the loop ends at a goal of least cost, or when no goal can be reached.
use multi_robot_fulfillment.Common.{
  ℕ, ◌+◌, ◌≤◌, ◌≡◌, refl, ◌⊎◌, inl, inr, true, false, some, List, ◌∷◌, Eq, ◌∈◌, contains, arith,
  Eq-cases, subst,
}
use multi_robot_fulfillment.Common.Dict.{lookup}
use multi_robot_fulfillment.Search.{Entry, Search, Query, finalize, begin}
use multi_robot_fulfillment.Search.Frontier.{mem-heappop, heappop_least}
use multi_robot_fulfillment.Search.Invariant.{Graph, Walk, here, step, Costs, Complete, Consistent}
use multi_robot_fulfillment.Search.Expand.{Front}
use multi_robot_fulfillment.Search.Loop.{
  begin-Costs, stale-Costs, finalize-Ready, least, rest, rest_queued, least_queued,
}

module _ {S : Type 0} ⦃e : Eq S⦄ (query : Query S) (start : S) (graph : Graph query start)
    (consistent : Consistent query start graph) where
  open consistent use {estimate, rank_lem}

  -- Between the rounds.
  pub record Inv (s : Search S) : Type 0 where
    pub costs : Costs query start graph s
    pub complete : Complete query start graph consistent (λ t. ⊥) s

  pub Walk-valid : {n : ℕ} {t : S} → Walk graph.steps start n t → graph.valid t n ≡ true
  Walk-valid here = graph.start_valid
  Walk-valid (step {n} {s = u} {t} w edge) = graph.step_valid u t n (Walk-valid w) edge

  -- Every walk has been followed, or an entry that is no worse waits in the queue.
  pub Walk-front :
      (s : Search S)
      → Inv s
      → {n : ℕ} {t : S} → Walk graph.steps start n t
      → ((g : ℕ) × (lookup t s.best_cost ≡ some g) × (contains s.finalized t ≡ true) × (g ≤ n))
        ⊎ ((x : Entry S) × (x ∈ s.frontier) × (x.rank ≤ n + estimate t))
  Walk-front s i here = elim (i.complete.waiting start 0 i.costs.start_cost) [
    | inl done ↦ inl (0, i.costs.start_cost, done, omega arith)
    | inr (x, m, _, ranked) ↦ inr (x, m, omega (arith, rank_lem 0 start))
  ]
  Walk-front s i (step {n} {s = u} {t} w edge) = elim (Walk-front s i w) [
    | inr (x, m, le) ↦ inr (x, m, omega (arith, consistent.estimate_step u t n (Walk-valid w) edge))
    | inl (g, k, done, le) ↦ elim (i.complete.settled u done) [
      | inl impossible ↦ absurd impossible
      | inr settled ↦
          let (g', k', le') = settled g t k edge in
          elim (i.complete.waiting t g' k') [
            | inl finished ↦ inl (g', k', finished, omega arith)
            | inr (x, m, _, ranked) ↦ inr (x, m, omega (arith, rank_lem g' t))
          ]
    ]
  ]

  begin_cost :
      (t : S) (g : ℕ) → lookup t (begin query start).best_cost ≡ some g → (t ≡ start) × (0 ≡ g)
  begin_cost t g k = ground (arith, (e.beq_iff t start).0)

  pub begin-Inv : Inv (begin query start)
  begin-Inv = record {
    costs = begin-Costs query start graph;
    complete = record {
      waiting = λ t g k.
          let (same, none_yet) = begin_cost t g k in
          inr (
            rw (same, ← none_yet)
              (
                record {
                  rank = (query.order 0 start).0;
                  tie = (query.order 0 start).1;
                  insertion_order = 0;
                  node = start;
                },
                inl refl,
                refl,
                refl,
              ));
      settled = λ t done. absurd (ground arith);
      no_goal = λ t done. absurd (ground arith);
      ranked = λ x g. elim [
        | inl same ↦
            λ k. let (_, none_yet) = begin_cost x.node g k in ground (arith, rank_lem 0 start)
        | inr m ↦ absurd m
      ];
      ordered = λ t x g done m k. absurd (ground arith);
    };
  }

  module _ (s : Search S) (x : Entry S) (xs : List (Entry S)) (is_front : s.frontier ≡ x ∷ xs)
      (i : Inv s) where
    abbrev pub top : Entry S
    top = least query start graph s x xs is_front

    abbrev pub others : List (Entry S)
    others = rest query start graph s x xs is_front

    pub stale-Inv : contains s.finalized top.node ≡ true → Inv (record s { frontier = others })
    stale-Inv done = record {
      costs = stale-Costs query start graph s x xs is_front i.costs;
      complete = record {
        waiting = λ t g k. elim (i.complete.waiting t g k) [
          | inl closed ↦ inl closed
          | inr (y, m, is_t, ranked) ↦
              elim ((mem-heappop x xs y).0 (subst (λ q. y ∈ q) is_front m)) [
                | inl popped ↦ inl (ground (arith, done))
                | inr left ↦ inr (y, left, is_t, ranked)
              ]
        ];
        settled = i.complete.settled;
        no_goal = i.complete.no_goal;
        ranked =
            λ y g m k. i.complete.ranked y g (rest_queued query start graph s x xs is_front y m) k;
        ordered = λ t y g closed m k.
            i.complete.ordered t y g closed (rest_queued query start graph s x xs is_front y m) k;
      };
    }

    -- The popped entry carries the cost of its state.
    pub top_rank :
        (g : ℕ)
        → lookup top.node s.best_cost ≡ some g
        → contains s.finalized top.node ≡ false
        → top.rank ≡ g + estimate top.node
    top_rank g k new = elim (i.complete.waiting top.node g k) [
      | inl closed ↦ absurd (ground arith)
      | inr (y, m, _, ranked) ↦ omega (
        arith,
        heappop_least x xs y (subst (λ q. y ∈ q) is_front m),
        rank_lem g top.node,
        i.complete.ranked top g (least_queued query start graph s x xs is_front) k,
      )
    ]

    -- The popped state, just finalised.
    pub finalize-Front :
        (g : ℕ)
        → lookup top.node s.best_cost ≡ some g
        → contains s.finalized top.node ≡ false
        → query.is_goal top.node ≡ false
        → Front query start graph top.node g consistent (finalize top.node others s)
    finalize-Front g k new other = record {
      ready = finalize-Ready query start graph s x xs is_front i.costs g k;
      complete = record {
        waiting = λ t h l. elim (i.complete.waiting t h l) [
          | inl closed ↦ inl (ground arith)
          | inr (y, m, is_t, ranked) ↦
              elim ((mem-heappop x xs y).0 (subst (λ q. y ∈ q) is_front m)) [
                | inl popped ↦ inl (ground (arith, (e.beq_iff t top.node).1))
                | inr left ↦ inr (y, left, is_t, ranked)
              ]
        ];
        settled = λ t done. elim (Eq-cases t top.node) [
          | inl (same, _) ↦ inl same
          | inr (_, test) ↦ elim (i.complete.settled t (ground arith)) [
            | inl impossible ↦ absurd impossible
            | inr settled ↦ inr settled
          ]
        ];
        no_goal = λ t done. elim (Eq-cases t top.node) [
          | inl (same, _) ↦ rw same other
          | inr (_, test) ↦ i.complete.no_goal t (ground arith)
        ];
        ranked =
            λ y h m l. i.complete.ranked y h (rest_queued query start graph s x xs is_front y m) l;
        ordered = λ t y h done m l. elim (Eq-cases t top.node) [
          | inl (same, _) ↦
              let at_top : lookup top.node s.best_cost ≡ some h = rw same at l in
              let least_first = heappop_least x xs y ((mem-heappop x xs y).1 (inr m)) in
              rw same (
                omega (
                  arith,
                  i.complete.ranked top h (least_queued query start graph s x xs is_front) at_top,
                ))
          | inr (_, test) ↦
              i.complete.ordered t y h (ground arith)
                (rest_queued query start graph s x xs is_front y m) l
        ];
      };
      top = λ t h done l. elim (Eq-cases t top.node) [
        | inl (same, _) ↦ ground arith
        | inr (_, test) ↦ omega (
          arith,
          top_rank g k new,
          i.complete.ordered t top h (ground arith) (least_queued query start graph s x xs is_front)
              l,
        )
      ];
    }
