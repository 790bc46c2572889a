-- ===== src/Scheduler/Retention.antt =====
-- `_prune` of scottycore/services/backup/scheduler.py. Times are in seconds.
pub mod Kept
pub mod Reference
pub mod Survivors
use fastapi_modular_template.Base.{
  ℕ, suc, ◌+◌, ◌-◌, ◌*◌, String, Bool, true, false, not, ◌&&◌, Option, none, some, List, [], ◌∷◌,
  ◌++◌, map, ◌==◌, leb, eqb, if◌then◌else◌, is_some, length, take, filter, elem, truthy, Result,
}
use fastapi_modular_template.Tasks.{ℤ, pos, negsuc}
use fastapi_modular_template.Scheduler.Tables.{Schedule, Run, Status, success, delete_run}

abbrev pub is_success : Status → Bool
is_success success = true
is_success _ = false

-- `ORDER BY created_at DESC`; of equal times the later row comes first.
unfoldable pub insert_newest : Run → List Run → List Run
insert_newest x [] = x ∷ []
insert_newest x (y ∷ ys) =
    if leb y.created_at x.created_at then x ∷ y ∷ ys else y ∷ insert_newest x ys

unfoldable pub newest_first : List Run → List Run → List Run
newest_first [] sorted = sorted
newest_first (x ∷ xs) sorted = newest_first xs (insert_newest x sorted)

unfoldable pub successful_runs : String → List Run → List Run
successful_runs schedule_id runs =
    newest_first (filter (λ r. r.schedule_id == schedule_id && is_success r.status) runs) []

-- `value or 0` of a setting that may be None
abbrev pub or_zero : Option ℤ → ℤ
or_zero none = pos 0
or_zero (some n) = n

abbrev pub is_zero : ℤ → Bool
is_zero (pos n) = eqb n 0
is_zero (negsuc n) = false

-- `xs[:n]`; a negative n counts from the end.
abbrev pub slice : {A : Type 0} → ℤ → List A → List A
slice (pos n) xs = take n xs
slice (negsuc n) xs = take (length xs - suc n) xs

-- `created_at >= now - timedelta(days=n)`
abbrev pub is_after_cutoff : ℤ → ℕ → ℕ → Bool
is_after_cutoff (pos n) now created_at = leb (now - n * 86400) created_at
is_after_cutoff (negsuc n) now created_at = leb (now + suc n * 86400) created_at

abbrev pub ids : List Run → List String
ids runs = map (λ (r : Run). r.id) runs

-- `created_at >= keep_cutoff`, false where there is no cutoff
abbrev pub recent_enough : Schedule → ℕ → Run → Bool
recent_enough s now r =
    not (is_zero (or_zero s.retention_days))
    && is_after_cutoff (or_zero s.retention_days) now r.created_at

-- The keys of the runs to keep.
unfoldable pub keep_set : Schedule → ℕ → List Run → List String
keep_set s now runs =
    ids (slice (or_zero s.keep_last) runs) ++ ids (filter (recent_enough s now) runs)

-- `keep_cutoff is None and schedule.keep_last is None`: everything is kept.
abbrev pub keeps_everything : Schedule → Bool
keeps_everything s = is_zero (or_zero s.retention_days) && not (is_some s.keep_last)

unfoldable pub to_delete : Schedule → ℕ → List Run → List Run
to_delete s now runs =
    let mine = successful_runs s.id runs in
    if keeps_everything s then [] else filter (λ r. not (elem r.id (keep_set s now mine))) mine

-- `delete` is the sink's: a raise is logged and the row goes all the same.
module _ {S : Type 0} (delete : String → S → Result (Unit {0}) × S) where
  unfoldable pub delete_snapshot : Run → S → S
  delete_snapshot r s = elim (truthy r.sink_locator) [
    | none ↦ s
    | some locator ↦ (delete locator s).1
  ]

  unfoldable pub delete_all : List Run → List Run → S → List Run × S
  delete_all [] runs s = (runs, s)
  delete_all (r ∷ rs) runs s = delete_all rs (delete_run r.id runs) (delete_snapshot r s)

  unfoldable pub prune : Schedule → ℕ → List Run → S → List Run × S
  prune schedule now runs s = delete_all (to_delete schedule now runs) runs s
