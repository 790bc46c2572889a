-- ===== src/Scheduler/Retention/Reference.antt =====
-- Which runs a schedule wants to keep, described over the table of runs as it was written.
use fastapi_modular_template.Base.{
  ℕ, zero, suc, ◌+◌, ◌-◌, ◌*◌, ◌≤◌, ◌≡◌, Bool, true, false, not, ◌&&◌, ◌||◌, Option, none, some,
  List, [], ◌∷◌, ◌==◌, ltb, leb, eqb, if◌then◌else◌, is_some, length, filter, elem,
}
use fastapi_modular_template.Tasks.{ℤ, pos, negsuc}
use fastapi_modular_template.Scheduler.Tables.{Schedule, Run, success}
use fastapi_modular_template.Scheduler.Retention.{ids}

-- No run was created before the one above it, nor before a time.
abbrev pub IsChronologicalFrom : ℕ → List Run → Type 0
IsChronologicalFrom t [] = Unit
IsChronologicalFrom t (r ∷ later) = t ≤ r.created_at × IsChronologicalFrom r.created_at later

abbrev pub IsChronological : List Run → Type 0
IsChronological runs = IsChronologicalFrom 0 runs

abbrev pub HasDistinctIds : List Run → Type 0
HasDistinctIds [] = Unit
HasDistinctIds (r ∷ later) = elem r.id (ids later) ≡ false × HasDistinctIds later

-- Whether a run is a successful one of the schedule
abbrev pub is_mine : Schedule → Run → Bool
is_mine s r = r.schedule_id == s.id && elim r.status [ success ↦ true | _ ↦ false ]

-- How many of n runs keep_last keeps; below 0 it is how many it leaves out.
abbrev pub allowance : Option ℤ → ℕ → ℕ
allowance none n = 0
allowance (some (pos k)) n = k
allowance (some (negsuc k)) n = n - suc k

-- Whether a run is at most retention_days old
abbrev pub is_young : Option ℤ → ℕ → Run → Bool
is_young none now r = false
is_young (some (pos zero)) now r = false
is_young (some (pos (suc d))) now r = leb now (r.created_at + suc d * 86400)
is_young (some (negsuc d)) now r = leb (now + suc d * 86400) r.created_at

abbrev pub has_no_limit : Schedule → Bool
has_no_limit s =
    not (is_some s.keep_last)
    && elim s.retention_days [ none ↦ true | some (pos n) ↦ eqb n 0 | some (negsuc n) ↦ false ]

-- The runs that a schedule wants to keep of those of a table, if it has `total` successful ones
-- in all: a run stays unless there are enough newer ones of the schedule and it is too old.
abbrev pub survivors : Schedule → ℕ → ℕ → List Run → List Run
survivors s now total [] = []
survivors s now total (r ∷ later) =
    let rest = survivors s now total later in
    if has_no_limit s
      || not (is_mine s r)
      || is_young s.retention_days now r
      || ltb (length (filter (is_mine s) later)) (allowance s.keep_last total)
    then r ∷ rest
    else rest
