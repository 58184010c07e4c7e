-- ===== src/Orchestration/Runnable.antt =====
-- The tasks of core/task.py that `get_ready_tasks` finds, described by their statuses alone.
use enterprise_multi_agent_o.Base.{
  String, ◌≡◌, refl, ap, ◌++◌, sym, ◌⊎◌, inl, inr, true, some, List, [], ◌∷◌, contains, string_eq,
  arith, Bool-cases, ==-cases, subst,
}
use enterprise_multi_agent_o.Base.Lists.{all, select, head?, All, In, here, there}
use enterprise_multi_agent_o.Core.Types.{TaskStatus}
use enterprise_multi_agent_o.Core.Task.{
  Task, ExecutionPlan, ids, get_ready_tasks, completed_ids, is_ready, is_pending, is_completed,
  is_done, all_completed,
}
use enterprise_multi_agent_o.Planner.Ready.{contains-completed}

-- A task with this id has completed.
abbrev pub HasCompleted : List Task → String → Type 0
HasCompleted ts x = (u : Task) × In u ts × (u.id ≡ x) × (u.status ≡ TaskStatus.completed)

-- The task waits, and all that it depends on has completed.
abbrev pub CanRun : List Task → Task → Type 0
CanRun ts t = (t.status ≡ TaskStatus.pending) × All (HasCompleted ts) t.dependencies

-- The task has completed or was skipped.
abbrev pub IsDone : Task → Type 0
IsDone t = (t.status ≡ TaskStatus.completed) ⊎ (t.status ≡ TaskStatus.skipped)

is_pending-eq : (s : TaskStatus) → is_pending s ≡ true → s ≡ TaskStatus.pending
is_pending-eq TaskStatus.pending h = refl
is_pending-eq TaskStatus.in_progress h = cc
is_pending-eq TaskStatus.completed h = cc
is_pending-eq TaskStatus.failed h = cc
is_pending-eq TaskStatus.blocked h = cc
is_pending-eq TaskStatus.skipped h = cc
is_pending-eq TaskStatus.cancelled h = cc

is_completed-eq : (s : TaskStatus) → is_completed s ≡ true → s ≡ TaskStatus.completed
is_completed-eq TaskStatus.pending h = cc
is_completed-eq TaskStatus.in_progress h = cc
is_completed-eq TaskStatus.completed h = refl
is_completed-eq TaskStatus.failed h = cc
is_completed-eq TaskStatus.blocked h = cc
is_completed-eq TaskStatus.skipped h = cc
is_completed-eq TaskStatus.cancelled h = cc

is_done-eq :
    (s : TaskStatus) → is_done s ≡ true → (s ≡ TaskStatus.completed) ⊎ (s ≡ TaskStatus.skipped)
is_done-eq TaskStatus.pending h = cc
is_done-eq TaskStatus.in_progress h = cc
is_done-eq TaskStatus.completed h = inl refl
is_done-eq TaskStatus.failed h = cc
is_done-eq TaskStatus.blocked h = cc
is_done-eq TaskStatus.skipped h = inr refl
is_done-eq TaskStatus.cancelled h = cc

completed-HasCompleted :
    (ts : List Task) (x : String) → contains (completed_ids ts) x ≡ true → HasCompleted ts x
unfolding completed_ids ids
completed-HasCompleted [] x h = cc
completed-HasCompleted (t ∷ ts) x h = elim (Bool-cases (is_completed t.status)) [
  | inl done ↦ elim (==-cases x t.id) [
    | inl (_, e) ↦ (t, here refl, sym e, is_completed-eq t.status done)
    | inr (ne, _) ↦
        let (u, m, e, d) = completed-HasCompleted ts x (ground (arith, h, ne, done)) in
        (u, there m, e, d)
  ]
  | inr other ↦
      let (u, m, e, d) = completed-HasCompleted ts x (ground (arith, h, other)) in
      (u, there m, e, d)
]

all-HasCompleted :
    (ts : List Task) (xs : List String)
    → all (contains (completed_ids ts)) xs ≡ true
    → All (HasCompleted ts) xs
all-HasCompleted ts [] h = tt
all-HasCompleted ts (x ∷ xs) h =
    (completed-HasCompleted ts x (ground (arith, h)), all-HasCompleted ts xs (ground (arith, h)))

HasCompleted-all :
    (ts : List Task) (xs : List String)
    → All (HasCompleted ts) xs
    → all (contains (completed_ids ts)) xs ≡ true
HasCompleted-all ts [] h = refl
HasCompleted-all ts (x ∷ xs) ((u, m, e, d), hs) =
    let now : contains (completed_ids ts) x ≡ true =
      subst (λ y. contains (completed_ids ts) y ≡ true) e
        (contains-completed m (ap is_completed d)) in
    ground (arith, now, HasCompleted-all ts xs hs)

is_ready-CanRun : (ts : List Task) (t : Task) → is_ready (completed_ids ts) t ≡ true → CanRun ts t
unfolding is_ready
is_ready-CanRun ts t h = (
  is_pending-eq t.status (ground (arith, h)),
  all-HasCompleted ts t.dependencies (ground (arith, h)),
)

CanRun-is_ready : (ts : List Task) (t : Task) → CanRun ts t → is_ready (completed_ids ts) t ≡ true
unfolding is_ready
CanRun-is_ready ts t (waits, met) =
    ground (arith, ap is_pending waits, HasCompleted-all ts t.dependencies met)

all-IsDone : (ts : List Task) → all (λ t. is_done t.status) ts ≡ true → All IsDone ts
all-IsDone [] h = tt
all-IsDone (t ∷ ts) h = (is_done-eq t.status (ground (arith, h)), all-IsDone ts (ground (arith, h)))

pub all_completed-IsDone : (p : ExecutionPlan) → all_completed p ≡ true → All IsDone p.tasks
unfolding all_completed
all_completed-IsDone p h = all-IsDone p.tasks (ground (arith, h))

-- `t` is a task of the plan that may run now.
pub record IsRunnable (p : ExecutionPlan) (t : Task) : Type 0 where
  pub listed : In t p.tasks
  pub waits : t.status ≡ TaskStatus.pending
  pub unblocked : All (HasCompleted p.tasks) t.dependencies

-- `t` is the first task of the plan that may run now.
pub record IsFirst (p : ExecutionPlan) (t : Task) : Type 0 where
  pub earlier : List Task
  pub later : List Task
  pub split : p.tasks ≡ earlier ++ t ∷ later
  pub can_run : CanRun p.tasks t
  pub not_earlier : All (λ u. CanRun p.tasks u → ⊥) earlier

abbrev FirstReady : List Task → List Task → Task → Type 0
FirstReady all_tasks ts t =
    (earlier : List Task) × (later : List Task) × (ts ≡ earlier ++ t ∷ later)
    × (is_ready (completed_ids all_tasks) t ≡ true)
    × All (λ u. CanRun all_tasks u → ⊥) earlier

head-FirstReady :
    (all_tasks ts : List Task) {t : Task}
    → head? (select (is_ready (completed_ids all_tasks)) ts) ≡ some t
    → FirstReady all_tasks ts t
head-FirstReady all_tasks [] h = absurd (ground (arith, h))
head-FirstReady all_tasks (u ∷ ts) {t} h =
    elim (Bool-cases (is_ready (completed_ids all_tasks) u)) [
      | inl now ↦
          let e : u ≡ t = ground (arith, h, now) in
          (
            [],
            ts,
            ap (λ v. v ∷ ts) e,
            subst (λ v. is_ready (completed_ids all_tasks) v ≡ true) e now,
            tt,
          )
      | inr not_yet ↦
          let rest : head? (select (is_ready (completed_ids all_tasks)) ts) ≡ some t =
            ground (arith, h, not_yet) in
          let (earlier, later, split, ready, none_before) = head-FirstReady all_tasks ts rest in
          (
            u ∷ earlier,
            later,
            ap (λ vs. u ∷ vs) split,
            ready,
            ((λ c. absurd (ground (arith, not_yet, CanRun-is_ready all_tasks u c))), none_before),
          )
    ]

pub ready-IsFirst :
    (p : ExecutionPlan) {t : Task} → head? (get_ready_tasks p) ≡ some t → IsFirst p t
unfolding get_ready_tasks
ready-IsFirst p {t} h =
    let (earlier, later, split, ready, none_before) = head-FirstReady p.tasks p.tasks h in
    record {
      earlier = earlier;
      later = later;
      split = split;
      can_run = is_ready-CanRun p.tasks t ready;
      not_earlier = none_before;
    }

In-middle : (xs ys : List Task) (t : Task) → In t (xs ++ t ∷ ys)
In-middle [] ys t = here refl
In-middle (x ∷ xs) ys t = there (In-middle xs ys t)

pub ready-IsRunnable :
    (p : ExecutionPlan) {t : Task} → head? (get_ready_tasks p) ≡ some t → IsRunnable p t
ready-IsRunnable p {t} h =
    let first = ready-IsFirst p h in
    record {
      listed = subst (In t) (sym first.split) (In-middle first.earlier first.later t);
      waits = first.can_run.0;
      unblocked = first.can_run.1;
    }
