-- ===== src/Allocation/Once.antt =====
-- The choice of robotics/allocation/greedy_allocator.py names no robot and no task twice.
use multi_robot_fulfillment.Common.{
  ℕ, ◌≡◌, ◌⊎◌, inl, inr, refl, sym, subst, ◌∙◌, Bool, none, some, List, [], ◌∷◌, ◌∈◌, map, sorted,
  insert_sorted, keep_if, contains, mem→contains, mem-sorted, mem-keep_if, arith, nat_eq,
  nat_beq_iff, Option-cases, Bool-cases,
}
use multi_robot_fulfillment.Search.Route.{Distinct}
use multi_robot_fulfillment.Allocation.{Assignment}
use multi_robot_fulfillment.Allocation.Commits.{robots_of, tasks_of}
use multi_robot_fulfillment.Allocation.Feasible.{CandidatePair}
use multi_robot_fulfillment.Allocation.Greedy.{pairs_for, first_free, assignment_of, choose}

module _ {A : Type 0} (before : A → A → Bool) (f : A → ℕ) where
  mem-map-insert_sorted :
      (x : A) (xs : List A) (n : ℕ)
      → (n ∈ map f (insert_sorted before x xs))
      → (n ≡ f x) ⊎ (n ∈ map f xs)
  unfolding insert_sorted
  mem-map-insert_sorted x [] n m = m
  mem-map-insert_sorted x (y ∷ ys) n m = elim (Bool-cases (before y x)) [
    | inl h ↦ ground (arith, h, m, mem-map-insert_sorted x ys n)
    | inr h ↦ ground (arith, h, m)
  ]

  Distinct-insert_sorted :
      (x : A) (xs : List A)
      → ¬ (f x ∈ map f xs)
      → Distinct (map f xs)
      → Distinct (map f (insert_sorted before x xs))
  unfolding insert_sorted
  Distinct-insert_sorted x [] out others = (λ m. m, tt)
  Distinct-insert_sorted x (y ∷ ys) out (out', others) = elim (Bool-cases (before y x)) [
    | inr h ↦ rw (insert_sorted, h) (out, (out', others))
    | inl h ↦
        rw (insert_sorted, h)
          (
            λ m. elim (mem-map-insert_sorted x ys (f y) m) [
              | inl same ↦ out (inl (sym same))
              | inr m' ↦ out' m'
            ],
            Distinct-insert_sorted x ys (λ m. out (inr m)) others,
          )
  ]

  mem-map-sorted : (xs : List A) (n : ℕ) → n ∈ map f (sorted before xs) → n ∈ map f xs
  unfolding sorted
  mem-map-sorted [] n m = m
  mem-map-sorted (x ∷ xs) n m = elim (mem-map-insert_sorted x (sorted before xs) n m) [
    | inl same ↦ inl same
    | inr m' ↦ inr (mem-map-sorted xs n m')
  ]

  pub Distinct-sorted : (xs : List A) → Distinct (map f xs) → Distinct (map f (sorted before xs))
  unfolding sorted
  Distinct-sorted [] h = tt
  Distinct-sorted (x ∷ xs) (out, others) =
      Distinct-insert_sorted x (sorted before xs) (λ m. out (mem-map-sorted xs (f x) m))
        (Distinct-sorted xs others)

module _ {A : Type 0} (p : A → Bool) (f : A → ℕ) where
  mem-map-keep_if : (xs : List A) (n : ℕ) → n ∈ map f (keep_if p xs) → n ∈ map f xs
  mem-map-keep_if [] n m = m
  mem-map-keep_if (x ∷ xs) n m = ground (arith, mem-map-keep_if xs n)

  pub Distinct-keep_if : (xs : List A) → Distinct (map f xs) → Distinct (map f (keep_if p xs))
  Distinct-keep_if [] h = tt
  Distinct-keep_if (x ∷ xs) (out, others) = elim (Bool-cases (p x)) [
    | inl h ↦ rw (keep_if, h) (λ m. out (mem-map-keep_if xs (f x) m), Distinct-keep_if xs others)
    | inr h ↦ rw (keep_if, h) (Distinct-keep_if xs others)
  ]

-- The robot of the first free pair is not used, and the pair is one of those asked about.
first_free-some :
    (used : List ℕ) (pairs : List CandidatePair) (pair : CandidatePair)
    → first_free used pairs ≡ some pair
    → (¬ (pair.robot_id ∈ used)) × (pair ∈ pairs)
unfolding first_free
first_free-some used [] pair h = absurd (ground arith)
first_free-some used (q ∷ pairs) pair h = elim (Bool-cases (contains used q.robot_id)) [
  | inl taken ↦
      let (free, on) = first_free-some used pairs pair (ground (arith, h, taken)) in (free, inr on)
  | inr free ↦
      let same : pair ≡ q = ground (arith, h, free) in
      (
        λ m. ground (
          arith,
          free,
          same,
          mem→contains used q.robot_id (subst (λ x. x.robot_id ∈ used) same m),
        ),
        inl same,
      )
]

pairs_for-task :
    (task_id : ℕ) (feasible : List CandidatePair) (pair : CandidatePair)
    → pair ∈ pairs_for task_id feasible
    → pair.task_id ≡ task_id
unfolding pairs_for
pairs_for-task task_id feasible pair on =
    let kept = (mem-sorted _ pair _).0 on in
    (nat_beq_iff pair.task_id task_id).0 ((mem-keep_if _ feasible pair).0 kept).1

module _ (feasible : List CandidatePair) where
  chosen_none :
      (task_id : ℕ) (task_ids used : List ℕ)
      → first_free used (pairs_for task_id feasible) ≡ none
      → choose (task_id ∷ task_ids) feasible used ≡ choose task_ids feasible used
  unfolding choose
  chosen_none task_id task_ids used h = ground (arith, h)

  chosen_some :
      (task_id : ℕ) (task_ids used : List ℕ) (pair : CandidatePair)
      → first_free used (pairs_for task_id feasible) ≡ some pair
      → choose (task_id ∷ task_ids) feasible used
        ≡ assignment_of pair ∷ choose task_ids feasible (pair.robot_id ∷ used)
  unfolding choose
  chosen_some task_id task_ids used pair h = ground (arith, h)

  -- The robots are not used before and all different.
  record FreshRobots (used : List ℕ) (chosen : List Assignment) : Type 0 where
    pub fresh : (i : ℕ) → i ∈ robots_of chosen → ¬ (i ∈ used)
    pub once : Distinct (robots_of chosen)

  choose-FreshRobots : (task_ids used : List ℕ) → FreshRobots used (choose task_ids feasible used)
  unfolding choose
  choose-FreshRobots [] used = record { fresh = λ i on m. on; once = tt }
  choose-FreshRobots (task_id ∷ task_ids) used =
      elim (Option-cases (first_free used (pairs_for task_id feasible))) [
        | inl h ↦
            subst (FreshRobots used) (sym (chosen_none task_id task_ids used h))
              (choose-FreshRobots task_ids used)
        | inr (pair, h) ↦
            let rest = choose-FreshRobots task_ids (pair.robot_id ∷ used) in
            let (free, _) = first_free-some used (pairs_for task_id feasible) pair h in
            subst (FreshRobots used) (sym (chosen_some task_id task_ids used pair h)) (record {
              fresh = λ i on m. elim on [
                | inl same ↦ free (subst (λ k. k ∈ used) same m)
                | inr later ↦ rest.fresh i later (inr m)
              ];
              once = (λ m. rest.fresh pair.robot_id m (inl refl), rest.once);
            })
      ]

  record ListedTasks (task_ids : List ℕ) (chosen : List Assignment) : Type 0 where
    pub listed : (i : ℕ) → i ∈ tasks_of chosen → i ∈ task_ids
    pub once : Distinct (tasks_of chosen)

  choose-ListedTasks :
      (task_ids used : List ℕ)
      → Distinct task_ids
      → ListedTasks task_ids (choose task_ids feasible used)
  unfolding choose
  choose-ListedTasks [] used h = record { listed = λ i on. on; once = tt }
  choose-ListedTasks (task_id ∷ task_ids) used (out, others) =
      elim (Option-cases (first_free used (pairs_for task_id feasible))) [
        | inl h ↦
            let rest = choose-ListedTasks task_ids used others in
            subst (ListedTasks (task_id ∷ task_ids)) (sym (chosen_none task_id task_ids used h))
              (record { listed = λ i on. inr (rest.listed i on); once = rest.once })
        | inr (pair, h) ↦
            let rest = choose-ListedTasks task_ids (pair.robot_id ∷ used) others in
            let (_, on_list) = first_free-some used (pairs_for task_id feasible) pair h in
            let same = pairs_for-task task_id feasible pair on_list in
            subst (ListedTasks (task_id ∷ task_ids))
              (sym (chosen_some task_id task_ids used pair h))
              (record {
                listed = λ i on. elim on [
                  | inl is_pair ↦ inl (is_pair ∙ same)
                  | inr later ↦ inr (rest.listed i later)
                ];
                once = (
                  λ m. out (subst (λ k. k ∈ task_ids) same (rest.listed pair.task_id m)),
                  rest.once,
                );
              })
      ]

  pub choose-once :
      (task_ids : List ℕ)
      → Distinct task_ids
      → Distinct (robots_of (choose task_ids feasible []))
        × Distinct (tasks_of (choose task_ids feasible []))
  choose-once task_ids different =
      ((choose-FreshRobots task_ids []).once, (choose-ListedTasks task_ids [] different).once)
