-- ===== src/Tasks/Counts.antt =====
-- The counts of `get_summary` beside the lists of `list_tasks`.
use fastapi_modular_template.Base.{
  suc, ◌+◌, ◌≡◌, refl, true, false, List, [], ◌∷◌, arith, length, filter,
}
use fastapi_modular_template.Tasks.{Task, TaskEngine}
use fastapi_modular_template.Tasks.Listing.{
  values, insert_created, created_first, is_open, list_tasks, Summary, count_status, no_counts,
  counts, total_of, get_summary,
}

total-counts : (ts : List Task) (s : Summary) → total_of (counts ts s) ≡ total_of s + length ts
unfolding counts
total-counts [] s = omega arith
total-counts (t ∷ ts) s = ground (arith, total-counts ts (count_status t.status s))

open-counts :
    (ts : List Task) (s : Summary)
    → (counts ts s).running_count + (counts ts s).pending_count
      ≡ s.running_count + s.pending_count + length (filter (λ t. is_open t.status) ts)
unfolding counts
open-counts [] s = omega arith
open-counts (t ∷ ts) s = ground (arith, open-counts ts (count_status t.status s))

length-insert_created : (t : Task) (us : List Task) → length (insert_created t us) ≡ suc (length us)
unfolding insert_created
length-insert_created t [] = refl
length-insert_created t (u ∷ us) = ground (arith, length-insert_created t us)

length-created_first : (ts : List Task) → length (created_first ts) ≡ length ts
unfolding created_first
length-created_first [] = refl
length-created_first (t ∷ ts) =
    omega (arith, length-insert_created t (created_first ts), length-created_first ts)

-- The total is the number of all the tasks listed, and the list without the completed ones has as
-- many as are running or pending: a task that waits for an answer is not in it.
get_summary-list_tasks :
    (e : TaskEngine)
    → ((get_summary e).1 ≡ length (list_tasks true e))
      × ((get_summary e).0.running_count + (get_summary e).0.pending_count
          ≡ length (list_tasks false e))
unfolding get_summary list_tasks
get_summary-list_tasks e = (
  omega (arith, total-counts (values e.tasks) no_counts, length-created_first (values e.tasks)),
  omega (
    arith,
    open-counts (values e.tasks) no_counts,
    length-created_first (filter (λ t. is_open t.status) (values e.tasks)),
  ),
)
