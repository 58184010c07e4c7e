-- ===== src/Orchestration/Budget.antt =====
-- How many times the tasks of a plan may still be sent out, and how a change of one task counts.
use enterprise_multi_agent_o.Base.{
  ℕ, ◌+◌, ◌-◌, ◌≤◌, String, ◌≡◌, refl, sym, ◌∙◌, inl, inr, Bool, true, false, some, List, [], ◌∷◌,
  ◌==◌, ==-self, ==-cases, contains, if◌then◌else◌, string_eq, nat_eq, arith, Bool-cases, subst, ap,
}
use enterprise_multi_agent_o.Base.Lists.{In, here, there, All}
use enterprise_multi_agent_o.Base.Count.{count, count-of_contains}
use enterprise_multi_agent_o.Core.Types.{TaskType, nonempty}
use enterprise_multi_agent_o.Core.Task.{Task, is_pending, find_task, update_task, ids}

abbrev pub is_planning : TaskType → Bool
is_planning TaskType.planning = true
is_planning _ = false

-- A waiting task is sent out once at least, and then as long as its retries last.
abbrev pub attempts : Task → ℕ
attempts t =
    if is_pending t.status
    then (if t.max_retries - t.retry_count == 0 then 1 else t.max_retries - t.retry_count)
    else 0

abbrev pub budget : List Task → ℕ
budget [] = 0
budget (t ∷ ts) = attempts t + budget ts

-- What the validator may give back to a task that is out.
abbrev pub retries_left : Task → ℕ
retries_left t = t.max_retries - t.retry_count - 1

-- The tasks have distinct and non-empty ids, and none asks for a new plan.
pub record IsSound (ts : List Task) : Type 0 where
  pub unique : (x : String) → count x (ids ts) ≤ 1
  pub named : All (λ t. (nonempty t.id ≡ true) × (is_planning t.task_type ≡ false)) ts

-- A change of a task that leaves its identity alone.
pub record Keeps (f : Task → Task) : Type 0 where
  pub id : (t : Task) → (f t).id ≡ t.id
  pub task_type : (t : Task) → (f t).task_type ≡ t.task_type

module _ (f : Task → Task) (keeps : Keeps f) (i : String) where
  pub ids-update_task : (ts : List Task) → ids (update_task i f ts) ≡ ids ts
  unfolding ids update_task
  ids-update_task [] = refl
  ids-update_task (t ∷ ts) = ground (arith, ids-update_task ts, keeps.id t)

  pub named-update_task :
      (ts : List Task)
      → All (λ t. (nonempty t.id ≡ true) × (is_planning t.task_type ≡ false)) ts
      → All (λ t. (nonempty t.id ≡ true) × (is_planning t.task_type ≡ false)) (update_task i f ts)
  unfolding update_task
  named-update_task [] h = tt
  named-update_task (t ∷ ts) h =
      ground (arith, h, named-update_task ts h.1, keeps.id t, keeps.task_type t)

  pub update_task-IsSound : {ts : List Task} → IsSound ts → IsSound (update_task i f ts)
  update_task-IsSound {ts} s = record {
    unique = subst (λ l. (x : String) → count x l ≤ 1) (sym (ids-update_task ts)) s.unique;
    named = named-update_task ts s.named;
  }

  pub find_task-update :
      (ts : List Task) {t : Task}
      → find_task i ts ≡ some t
      → find_task i (update_task i f ts) ≡ some (f t)
  unfolding find_task update_task
  find_task-update [] h = cc
  find_task-update (u ∷ ts) {t} h =
      ground (arith, h, λ (k : find_task i ts ≡ some t). find_task-update ts k, keeps.id u)

pub budget-update :
    (f : Task → Task) (i : String) (ts : List Task) {t : Task}
    → find_task i ts ≡ some t
    → budget (update_task i f ts) + attempts t ≡ budget ts + attempts (f t)
unfolding find_task update_task
budget-update f i [] h = cc
budget-update f i (u ∷ ts) {t} h = elim (Bool-cases (u.id == i)) [
  | inl here_it ↦
      let e : u ≡ t = ground (arith, h, here_it) in
      ground (arith, here_it, ap attempts e, ap (λ v. attempts (f v)) e)
  | inr further ↦
      let ih = budget-update f i ts {t = t} (ground (arith, h, further)) in
      rw further (omega (arith, ih))
]

In-ids : {t : Task} {ts : List Task} → In t ts → contains (ids ts) t.id ≡ true
unfolding ids
In-ids (here {x = v} {xs = us} e) =
    subst (λ w. contains (ids (v ∷ us)) w.id ≡ true) (sym e) (ground (arith, ==-self v.id))
In-ids (there m) = ground (arith, In-ids m)

-- The first task of an id is the only one.
pub find_task-In :
    (ts : List Task) {t : Task}
    → ((x : String) → count x (ids ts) ≤ 1)
    → In t ts
    → find_task t.id ts ≡ some t
unfolding find_task ids
find_task-In [] u m = elim m [ ]
find_task-In (v ∷ ts) {t} u (here e) = ground (arith, ap (λ w. w.id) e, e, ==-self v.id)
find_task-In (v ∷ ts) {t} u (there m) = ground (
  arith,
  u v.id,
  ==-self v.id,
  find_task-In ts (λ x. ground (arith, u x)) m,
  In-ids m,
  count-of_contains t.id (ids ts),
)

pub find_task-id : (i : String) (ts : List Task) {t : Task} → find_task i ts ≡ some t → t.id ≡ i
unfolding find_task
find_task-id i [] h = cc
find_task-id i (u ∷ ts) {t} h = elim (==-cases u.id i) [
  | inl (yes_it, e) ↦ let same : u ≡ t = ground (arith, h, yes_it) in ap (λ v. v.id) (sym same) ∙ e
  | inr (other, _) ↦ find_task-id i ts {t = t} (ground (arith, h, other))
]

-- Two changes of one task are one.
pub update_task-twice :
    (f g : Task → Task) (i : String) (ts : List Task)
    → Keeps g
    → update_task i f (update_task i g ts) ≡ update_task i (λ t. f (g t)) ts
unfolding update_task
update_task-twice f g i [] keeps = refl
update_task-twice f g i (t ∷ ts) keeps =
    ground (arith, keeps.id t, update_task-twice f g i ts keeps)
