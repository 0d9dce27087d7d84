-- ===== src/Allocation/Commits.antt =====
-- The loop of `commit_allocation` in robotics/allocation/commit.py.
use multi_robot_fulfillment.Common.{
  ℕ, ◌≡◌, ◌≢◌, inl, inr, refl, sym, subst, ap, ◌∙◌, true, none, some, List, [], ◌∷◌, ◌++◌, ◌∈◌, map,
  mem-map, arith, nat_eq, ok, Option-cases,
}
use multi_robot_fulfillment.Common.Dict.{lookup, lookup-insert_ne, lookup-insert_self}
use multi_robot_fulfillment.Robot.{Robot, RobotStatus, is_available, can_carry}
use multi_robot_fulfillment.Task.{Task, TaskStatus, status_eq}
use multi_robot_fulfillment.Simulator.{Simulator, get_robot, get_task}
use multi_robot_fulfillment.Simulator.Duty.{paired, pair_done}
use multi_robot_fulfillment.Search.Route.{Distinct}
use multi_robot_fulfillment.Allocation.{Assignment, why_not_committable, first_refusal, apply_all}

abbrev pub robots_of : List Assignment → List ℕ
robots_of assignments = map (λ (a : Assignment). a.robot_id) assignments

abbrev pub tasks_of : List Assignment → List ℕ
tasks_of assignments = map (λ (a : Assignment). a.task_id) assignments

abbrev pub pairs_of : List Assignment → List (ℕ × ℕ)
pairs_of assignments = map (λ (a : Assignment). (a.robot_id, a.task_id)) assignments

-- A registered pending task, and a registered robot that is available and can carry it.
pub record IsCommittable (s : Simulator) (a : Assignment) : Type 0 where
  pub robot : Robot
  pub task : Task
  pub robot_known : lookup a.robot_id s.robots ≡ some robot
  pub task_known : lookup a.task_id s.tasks ≡ some task
  pub pending : task.status ≡ TaskStatus.pending
  pub available : is_available robot ≡ true
  pub fits : can_carry task.payload_weight robot ≡ true

-- The robot and the task of the assignment name each other.
pub record IsApplied (s after : Simulator) (a : Assignment) : Type 0 where
  pub robot : Robot
  pub task : Task
  pub robot_before : lookup a.robot_id s.robots ≡ some robot
  pub task_before : lookup a.task_id s.tasks ≡ some task
  pub robot_after :
      lookup a.robot_id after.robots
      ≡ some (record robot { assigned_task_id = some task.task_id; status = RobotStatus.assigned })
  pub task_after :
      lookup a.task_id after.tasks
      ≡ some (record task { status = TaskStatus.assigned; assigned_robot_id = some robot.robot_id })

-- Only the robots and the tasks of the assignments have changed.
pub record IsLimited (s after : Simulator) (assignments : List Assignment) : Type 0 where
  pub warehouse : after.warehouse ≡ s.warehouse
  pub other_robots :
      (i : ℕ) → ¬ (i ∈ robots_of assignments) → lookup i after.robots ≡ lookup i s.robots
  pub other_tasks : (i : ℕ) → ¬ (i ∈ tasks_of assignments) → lookup i after.tasks ≡ lookup i s.tasks

why_not-none :
    (s : Simulator) (a : Assignment)
    → why_not_committable s a.robot_id a.task_id ≡ none
    → IsCommittable s a
unfolding why_not_committable get_robot get_task
why_not-none s a h = elim (Option-cases (lookup a.task_id s.tasks)) [
  | inl absent ↦ absurd (ground (arith, absent, h))
  | inr (t, known) ↦ elim (Option-cases (lookup a.robot_id s.robots)) [
    | inl absent ↦ absurd (ground (arith, absent, known, h))
    | inr (r, known') ↦ record {
      robot = r;
      task = t;
      robot_known = known';
      task_known = known;
      pending = ground (arith, known, known', h);
      available = ground (arith, known, known', h);
      fits = ground (arith, known, known', h);
    }
  ]
]

pub first_refusal-none :
    (s : Simulator) (assignments : List Assignment)
    → first_refusal s assignments ≡ none
    → (a : Assignment) → a ∈ assignments
    → IsCommittable s a
unfolding first_refusal
first_refusal-none s [] h a on = absurd on
first_refusal-none s (b ∷ rest) h a on =
    elim (Option-cases (why_not_committable s b.robot_id b.task_id)) [
      | inr (reason, refused) ↦ absurd (ground (arith, h, refused))
      | inl passed ↦ elim on [
        | inl same ↦ subst (λ x. IsCommittable s x) (sym same) (why_not-none s b passed)
        | inr later ↦ first_refusal-none s rest (ground (arith, h, passed)) a later
      ]
    ]

-- The state after one assignment.
abbrev pub next_state : (s : Simulator) (a : Assignment) → IsCommittable s a → Simulator
next_state s a can = paired a.task_id a.robot_id s can.robot can.task

pub apply_one :
    (s : Simulator) (a : Assignment) (rest : List Assignment) (applied : List (ℕ × ℕ))
    (can : IsCommittable s a)
    → apply_all (a ∷ rest) applied s
      ≡ apply_all rest (applied ++ ((a.robot_id, a.task_id) ∷ [])) (next_state s a can)
unfolding apply_all
apply_one s a rest applied can = ground (
  arith,
  pair_done a.task_id a.robot_id s can.robot can.task can.robot_known can.task_known can.pending
      can.available can.fits,
)

-- An assignment of another robot and another task stays possible.
still-IsCommittable :
    (s : Simulator) (a b : Assignment) (can : IsCommittable s a)
    → b.robot_id ≢ a.robot_id
    → b.task_id ≢ a.task_id
    → IsCommittable s b
    → IsCommittable (next_state s a can) b
still-IsCommittable s a b can other other' could = record {
  robot = could.robot;
  task = could.task;
  robot_known = lookup-insert_ne a.robot_id b.robot_id _ s.robots other ∙ could.robot_known;
  task_known = lookup-insert_ne a.task_id b.task_id _ s.tasks other' ∙ could.task_known;
  pending = could.pending;
  available = could.available;
  fits = could.fits;
}

-- Of the rest, none has the robot or the task of the first.
differs :
    (a : Assignment) (rest : List Assignment) (b : Assignment)
    → ¬ (a.robot_id ∈ robots_of rest)
    → b ∈ rest
    → b.robot_id ≢ a.robot_id
differs a rest b out on same =
    out (subst (λ i. i ∈ robots_of rest) same (mem-map (λ (x : Assignment). x.robot_id) rest b on))

differs_task :
    (a : Assignment) (rest : List Assignment) (b : Assignment)
    → ¬ (a.task_id ∈ tasks_of rest)
    → b ∈ rest
    → b.task_id ≢ a.task_id
differs_task a rest b out on same =
    out (subst (λ i. i ∈ tasks_of rest) same (mem-map (λ (x : Assignment). x.task_id) rest b on))

-- What the loop leaves.
pub record Applies (s : Simulator) (assignments : List Assignment) (applied : List (ℕ × ℕ))
    : Type 0 where
  pub after : Simulator
  pub returns : apply_all assignments applied s ≡ (ok (applied ++ pairs_of assignments), after)
  pub each : (a : Assignment) → a ∈ assignments → IsApplied s after a
  pub limited : IsLimited s after assignments

append-nil : (xs : List (ℕ × ℕ)) → xs ++ [] ≡ xs
append-nil [] = refl
append-nil (x ∷ xs) = ap (λ ys. x ∷ ys) (append-nil xs)

append-one : (xs ys : List (ℕ × ℕ)) (y : ℕ × ℕ) → (xs ++ (y ∷ [])) ++ ys ≡ xs ++ (y ∷ ys)
append-one [] ys y = refl
append-one (x ∷ xs) ys y = ap (λ zs. x ∷ zs) (append-one xs ys y)

apply_none : (s : Simulator) (applied : List (ℕ × ℕ)) → Applies s [] applied
unfolding apply_all
apply_none s applied = record {
  after = s;
  returns = ap (λ xs. (ok xs, s)) (sym (append-nil applied));
  each = λ a on. absurd on;
  limited = record { warehouse = refl; other_robots = λ i out. refl; other_tasks = λ i out. refl };
}

-- What holds of another assignment after the rest of the loop held before the first step too.
later-IsApplied :
    (s after : Simulator) (a b : Assignment) (can : IsCommittable s a)
    → b.robot_id ≢ a.robot_id
    → b.task_id ≢ a.task_id
    → IsApplied (next_state s a can) after b
    → IsApplied s after b
later-IsApplied s after a b can other other' applied = record {
  robot = applied.robot;
  task = applied.task;
  robot_before =
      sym (lookup-insert_ne a.robot_id b.robot_id _ s.robots other) ∙ applied.robot_before;
  task_before = sym (lookup-insert_ne a.task_id b.task_id _ s.tasks other') ∙ applied.task_before;
  robot_after = applied.robot_after;
  task_after = applied.task_after;
}

apply_more :
    (s : Simulator) (a : Assignment) (rest : List Assignment) (applied : List (ℕ × ℕ))
    (can : IsCommittable s a)
    → ¬ (a.robot_id ∈ robots_of rest)
    → ¬ (a.task_id ∈ tasks_of rest)
    → Applies (next_state s a can) rest (applied ++ ((a.robot_id, a.task_id) ∷ []))
    → Applies s (a ∷ rest) applied
apply_more s a rest applied can out out' later = record {
  after = later.after;
  returns =
      apply_one s a rest applied can
      ∙ later.returns
      ∙ ap (λ xs. (ok xs, later.after))
          (append-one applied (pairs_of rest) (a.robot_id, a.task_id));
  each = λ b on. elim on [
    | inl same ↦
        subst (λ x. IsApplied s later.after x) (sym same)
          (record {
            robot = can.robot;
            task = can.task;
            robot_before = can.robot_known;
            task_before = can.task_known;
            robot_after =
                later.limited.other_robots a.robot_id out
                ∙ lookup-insert_self a.robot_id _ s.robots;
            task_after =
                later.limited.other_tasks a.task_id out' ∙ lookup-insert_self a.task_id _ s.tasks;
          })
    | inr in_rest ↦
        let other = differs a rest b out in_rest in
        later-IsApplied s later.after a b can other (differs_task a rest b out' in_rest)
          (later.each b in_rest)
  ];
  limited = record {
    warehouse = later.limited.warehouse;
    other_robots = λ i h.
        later.limited.other_robots i (λ on. h (inr on))
        ∙ lookup-insert_ne a.robot_id i _ s.robots (λ same. h (inl same));
    other_tasks = λ i h.
        later.limited.other_tasks i (λ on. h (inr on))
        ∙ lookup-insert_ne a.task_id i _ s.tasks (λ same. h (inl same));
  };
}

pub apply_all-Applies :
    (s : Simulator) (assignments : List Assignment) (applied : List (ℕ × ℕ))
    → Distinct (robots_of assignments)
    → Distinct (tasks_of assignments)
    → ((a : Assignment) → a ∈ assignments → IsCommittable s a)
    → Applies s assignments applied
apply_all-Applies s [] applied robots tasks all = apply_none s applied
apply_all-Applies s (a ∷ rest) applied (out, robots) (out', tasks) all =
    let can = all a (inl refl) in
    apply_more s a rest applied can out out' (
      apply_all-Applies (next_state s a can) rest (applied ++ ((a.robot_id, a.task_id) ∷ [])) robots
        tasks
        (λ b on.
          still-IsCommittable s a b can (differs a rest b out on) (differs_task a rest b out' on)
            (all b (inr on))))
