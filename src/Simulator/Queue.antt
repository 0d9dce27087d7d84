-- ===== src/Simulator/Queue.antt =====
-- The queue of tasks that nobody works on: `pending_tasks` of robotics/simulation/simulator.py.
use multi_robot_fulfillment.Common.{
  ◌≡◌, ◌↔◌, inl, inr, true, false, List, [], ◌∷◌, ◌∈◌, arith, keep_if, mem-keep_if, mem-sorted,
  sorted, insert_sorted, Bool-cases, ◌==◌,
}
use multi_robot_fulfillment.Common.Dict.{values}
use multi_robot_fulfillment.Task.{Task, TaskStatus, status_eq, status_beq_iff}
use multi_robot_fulfillment.Simulator.{Simulator, more_urgent, pending_tasks}

-- Nothing stands before a task that is more urgent than it.
abbrev pub InOrder : List Task → Type 0
InOrder [] = Unit
InOrder (a ∷ []) = Unit
InOrder (a ∷ b ∷ rest) = (more_urgent b a ≡ false) × InOrder (b ∷ rest)

more_urgent_asymm : (a b : Task) → more_urgent a b ≡ true → more_urgent b a ≡ false
more_urgent_asymm a b h = ground arith

insert_sorted-InOrder :
    (x : Task) (xs : List Task) → InOrder xs → InOrder (insert_sorted more_urgent x xs)
unfolding insert_sorted
insert_sorted-InOrder x [] o = tt
insert_sorted-InOrder x (y ∷ []) o = elim (Bool-cases (more_urgent y x)) [
  | inl h ↦ rw h (more_urgent_asymm y x h, tt)
  | inr h ↦ rw h (h, tt)
]
insert_sorted-InOrder x (y ∷ z ∷ zs) (yz, o) = elim (Bool-cases (more_urgent y x)) [
  | inr h ↦ rw h (h, (yz, o))
  | inl h ↦
      let rest = insert_sorted-InOrder x (z ∷ zs) o in
      elim (Bool-cases (more_urgent z x)) [
        | inl k ↦ ground (arith, h, k, yz, rest)
        | inr k ↦ ground (arith, h, k, rest, more_urgent_asymm y x h)
      ]
]

sorted-InOrder : (xs : List Task) → InOrder (sorted more_urgent xs)
unfolding sorted
sorted-InOrder [] = tt
sorted-InOrder (x ∷ xs) = insert_sorted-InOrder x (sorted more_urgent xs) (sorted-InOrder xs)

-- `pending_tasks` gives exactly the registered tasks that are pending, and none before a task of
-- higher priority, or of the same priority and a smaller identifier.
pub pending_tasks_exact :
    (s : Simulator)
    → ((t : Task)
        → (t ∈ pending_tasks s) ↔ ((t ∈ values s.tasks) × (t.status ≡ TaskStatus.pending)))
      × InOrder (pending_tasks s)
unfolding pending_tasks
pending_tasks_exact s =
    let waiting = keep_if (λ t. t.status == TaskStatus.pending) (values s.tasks) in
    (
      λ t. ground (
        arith,
        mem-sorted more_urgent t waiting,
        mem-keep_if (λ t. t.status == TaskStatus.pending) (values s.tasks) t,
        status_beq_iff t.status TaskStatus.pending,
      ),
      sorted-InOrder waiting,
    )
