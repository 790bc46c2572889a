-- ===== src/Scheduler/Retention/Kept.antt =====
-- Which runs a pruning leaves, in terms of the runs that it sorts.
use fastapi_modular_template.Base.{
  ℕ, String, ◌≡◌, refl, not, ◌&&◌, ◌||◌, List, [], ◌∷◌, arith, ◌==◌, eq_iff, filter, elem,
  elem-append, Result,
}
use fastapi_modular_template.Scheduler.Tables.{Schedule, Run, delete_run}
use fastapi_modular_template.Scheduler.Retention.{
  or_zero, slice, recent_enough, ids, delete_all, prune, successful_runs, keeps_everything,
  keep_set, to_delete, delete_snapshot,
}

elem-delete_run :
    (gone id : String) (runs : List Run)
    → elem id (ids (delete_run gone runs)) ≡ (elem id (ids runs) && not (gone == id))
unfolding delete_run
elem-delete_run gone id [] = refl
elem-delete_run gone id (r ∷ runs) =
    ground (arith, elem-delete_run gone id runs, eq_iff r.id gone, eq_iff r.id id, eq_iff gone id)

module _ {S : Type 0} (delete : String → S → Result (Unit {0}) × S) where
  elem-delete_all :
      (rs runs : List Run) (storage : S) (id : String)
      → elem id (ids (delete_all delete rs runs storage).0)
        ≡ (elem id (ids runs) && not (elem id (ids rs)))
  unfolding delete_all
  elem-delete_all [] runs storage id = ground arith
  elem-delete_all (r ∷ rs) runs storage id = ground (
    arith,
    elem-delete_all rs (delete_run r.id runs) (delete_snapshot delete r storage) id,
    elem-delete_run r.id id runs,
  )

  elem-filter-ids :
      (kept : List String) (runs : List Run) (id : String)
      → elem id (ids (filter (λ r. not (elem r.id kept)) runs))
        ≡ (elem id (ids runs) && not (elem id kept))
  elem-filter-ids kept [] id = refl
  elem-filter-ids kept (r ∷ runs) id = ground (arith, elem-filter-ids kept runs id, eq_iff r.id id)

  pub elem-prune :
      (s : Schedule) (now : ℕ) (runs : List Run) (storage : S) (id : String)
      → let mine = successful_runs s.id runs in
        elem id (ids (prune delete s now runs storage).0) ≡ (
          elem id (ids runs)
          && (keeps_everything s
              || not (elem id (ids mine))
              || elem id (ids (slice (or_zero s.keep_last) mine))
              || elem id (ids (filter (recent_enough s now) mine))))
  unfolding prune to_delete keep_set
  elem-prune s now runs storage id =
      let mine = successful_runs s.id runs in
      ground (
        arith,
        elem-delete_all (to_delete s now runs) runs storage id,
        elem-filter-ids (keep_set s now mine) mine id,
        elem-append (ids (slice (or_zero s.keep_last) mine))
            (ids (filter (recent_enough s now) mine)) id,
      )
