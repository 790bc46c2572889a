-- ===== src/Tasks/Listing.antt =====
-- The listings, the counts and the trimming of scottycore/core/task_engine.py.
use fastapi_modular_template.Base.{
  ℕ, zero, suc, ◌+◌, String, Bool, true, false, Option, none, some, List, [], ◌∷◌, leb,
  if◌then◌else◌, length, filter, Dict, lookup, remove,
}
use fastapi_modular_template.Tasks.{
  TaskStatus, Task, TaskEngine, running, pending, completed, failed, cancelled, waiting,
}

abbrev pub is_terminal : TaskStatus → Bool
is_terminal completed = true
is_terminal failed = true
is_terminal cancelled = true
is_terminal _ = false

-- `t.completed_at or ""`: no time sorts before every time.
abbrev pub no_later : Option ℕ → Option ℕ → Bool
no_later none b = true
no_later (some a) none = false
no_later (some a) (some b) = leb a b

-- `sort(key=completed_at, reverse=True)`, which keeps the order of equal times
unfoldable pub insert_latest : Task → List Task → List Task
insert_latest t [] = t ∷ []
insert_latest t (u ∷ us) =
    if no_later u.completed_at t.completed_at then t ∷ u ∷ us else u ∷ insert_latest t us

unfoldable pub latest_first : List Task → List Task
latest_first [] = []
latest_first (t ∷ ts) = insert_latest t (latest_first ts)

-- `self._tasks.values()`
unfoldable pub values : Dict Task → List Task
values [] = []
values ((id, t) ∷ more) = t ∷ values more

unfoldable pub terminal_tasks : TaskEngine → List Task
terminal_tasks e = latest_first (filter (λ t. is_terminal t.status) (values e.tasks))

unfoldable pub drop : ℕ → List Task → List Task
drop zero ts = ts
drop (suc n) [] = []
drop (suc n) (t ∷ ts) = drop n ts

abbrev pub pop_task : String → TaskEngine → TaskEngine
pop_task id e = record e {
  tasks = remove id e.tasks;
  running = remove id e.running;
  subscribers = remove id e.subscribers;
}

unfoldable pub forget : List Task → TaskEngine → TaskEngine
forget [] e = e
forget (t ∷ ts) e = forget ts (pop_task t.id e)

unfoldable pub cleanup_old : ℕ → TaskEngine → ℕ × TaskEngine
cleanup_old max_completed e =
    let to_remove = drop max_completed (terminal_tasks e) in (length to_remove, forget to_remove e)

-- `created_at` orders the tasks, newest first.
unfoldable pub insert_created : Task → List Task → List Task
insert_created t [] = t ∷ []
insert_created t (u ∷ us) =
    if leb u.created_at t.created_at then t ∷ u ∷ us else u ∷ insert_created t us

unfoldable pub created_first : List Task → List Task
created_first [] = []
created_first (t ∷ ts) = insert_created t (created_first ts)

abbrev pub is_open : TaskStatus → Bool
is_open pending = true
is_open running = true
is_open _ = false

unfoldable pub list_tasks : Bool → TaskEngine → List Task
list_tasks include_completed e =
    created_first (
      if include_completed then values e.tasks else filter (λ t. is_open t.status) (values e.tasks))

unfoldable pub get_task : String → TaskEngine → Option Task
get_task task_id e = lookup task_id e.tasks

-- The counts by status, and their total
pub record Summary : Type 0 where
  pub running_count : ℕ
  pub pending_count : ℕ
  pub completed_count : ℕ
  pub failed_count : ℕ
  pub cancelled_count : ℕ
  pub waiting_count : ℕ

abbrev pub count_status : TaskStatus → Summary → Summary
count_status running s = record s { running_count = s.running_count + 1 }
count_status pending s = record s { pending_count = s.pending_count + 1 }
count_status completed s = record s { completed_count = s.completed_count + 1 }
count_status failed s = record s { failed_count = s.failed_count + 1 }
count_status cancelled s = record s { cancelled_count = s.cancelled_count + 1 }
count_status waiting s = record s { waiting_count = s.waiting_count + 1 }

abbrev pub no_counts : Summary
no_counts = record {
  running_count = 0;
  pending_count = 0;
  completed_count = 0;
  failed_count = 0;
  cancelled_count = 0;
  waiting_count = 0;
}

unfoldable pub counts : List Task → Summary → Summary
counts [] s = s
counts (t ∷ ts) s = counts ts (count_status t.status s)

abbrev pub total_of : Summary → ℕ
total_of s =
    s.running_count + s.pending_count + s.completed_count + s.failed_count + s.cancelled_count
    + s.waiting_count

unfoldable pub get_summary : TaskEngine → Summary × ℕ
get_summary e = let s = counts (values e.tasks) no_counts in (s, total_of s)
