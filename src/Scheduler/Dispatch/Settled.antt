-- ===== src/Scheduler/Dispatch/Settled.antt =====
-- What a dispatch leaves of its run, of the other runs and of the schedules.
use fastapi_modular_template.Base.{
  String, ◌≡◌, refl, ◌⊎◌, inl, inr, Bool, not, List, [], ◌∷◌, arith, ◌==◌, eq_iff, filter, All,
  Error, Result, ok, err,
}
use fastapi_modular_template.Scheduler.Sinks.{Sink}
use fastapi_modular_template.Scheduler.Retention.{prune, delete_all, to_delete, delete_snapshot}
use fastapi_modular_template.Scheduler.Dispatch.{
  dispatch, after_advance, after_attempt, Backups, Services, Moment, Stored, advance_next_run_at,
  open_run, fail_run, attempt,
}
use fastapi_modular_template.Scheduler.Tables.{
  Status, Schedule, Run, delete_run, success, failed, update_runs, mark_run_success,
  mark_run_failed, fail, succeed,
}

abbrev pub IsSettled : Status → Type 0
IsSettled status = (status ≡ success) ⊎ (status ≡ failed)

-- Every row of the run with that key has succeeded or failed.
abbrev pub RunIsSettled : String → List Run → Type 0
RunIsSettled run_id runs = All (λ r. r.id ≡ run_id → IsSettled r.status) runs

RunIsSettled-update_runs :
    (run_id : String) (f : Run → Run) (runs : List Run)
    → ((r : Run) → IsSettled (f r).status)
    → RunIsSettled run_id (update_runs run_id f runs)
unfolding update_runs
RunIsSettled-update_runs run_id f [] h = tt
RunIsSettled-update_runs run_id f (r ∷ runs) h =
    ground (arith, h r, RunIsSettled-update_runs run_id f runs h, eq_iff r.id run_id)

RunIsSettled-filter :
    (run_id : String) (p : Run → Bool) (runs : List Run)
    → RunIsSettled run_id runs
    → RunIsSettled run_id (filter p runs)
RunIsSettled-filter run_id p [] h = tt
RunIsSettled-filter run_id p (r ∷ runs) h =
    ground (arith, RunIsSettled-filter run_id p runs h.1, h.0)

module _ {S : Type 0} where
  RunIsSettled-delete_all :
      (delete : String → S → Result (Unit {0}) × S) (run_id : String) (rs runs : List Run)
      (storage : S)
      → RunIsSettled run_id runs
      → RunIsSettled run_id (delete_all delete rs runs storage).0
  unfolding delete_all
  RunIsSettled-delete_all delete run_id [] runs storage h = h
  RunIsSettled-delete_all delete run_id (r ∷ rs) runs storage h =
      RunIsSettled-delete_all delete run_id rs (delete_run r.id runs)
        (delete_snapshot delete r storage)
        (unfold delete_run in RunIsSettled-filter run_id (λ x. not (x.id == r.id)) runs h)

module _ {S : Type 0} (svc : Services S) (s : Schedule) (m : Moment) where
  settled_fail_run :
      (e : Error) (schedules : List Schedule) (runs : List Run) (storage : S)
      → RunIsSettled m.run_id (fail_run svc m e schedules runs storage).runs
  unfolding fail_run mark_run_failed
  settled_fail_run e schedules runs storage =
      RunIsSettled-update_runs m.run_id (fail (svc.message e) m.finished_at) runs (λ r. inr refl)

  settled_after_advance :
      (sink : Sink) (schedules : List Schedule) (runs : List Run) (storage : S)
      (advanced : Result (List Schedule))
      → RunIsSettled m.run_id runs
      → RunIsSettled m.run_id (after_advance svc s m sink schedules runs storage advanced).runs
  unfolding after_advance prune
  settled_after_advance sink schedules runs storage (err e) h =
      settled_fail_run e schedules runs storage
  settled_after_advance sink schedules runs storage (ok advanced) h = ground (
    arith,
    RunIsSettled-delete_all (svc.delete sink) m.run_id (to_delete s m.prune_at runs) runs storage h,
  )

  settled_after_attempt :
      (schedules : List Schedule) (runs : List Run) (storage : S) (tried : Result Stored)
      → RunIsSettled m.run_id (after_attempt svc s m schedules runs storage tried).runs
  unfolding after_attempt mark_run_success
  settled_after_attempt schedules runs storage (err e) = settled_fail_run e schedules runs storage
  settled_after_attempt schedules runs storage (ok w) =
      settled_after_advance w.sink schedules
        (mark_run_success m.run_id w.blob w.locator w.bytes_written m.finished_at runs) storage
        (advance_next_run_at svc s m.started_at schedules)
        (RunIsSettled-update_runs m.run_id (succeed w.blob w.locator w.bytes_written m.finished_at)
          runs (λ r. inl refl))

  -- A dispatch that is not cancelled leaves no row of its run pending or running, whichever of the
  -- export, the encryption, the sink and the cron library raises.
  pub dispatch-settles : (b : Backups S) → RunIsSettled m.run_id (dispatch svc s m b).runs
  unfolding dispatch
  dispatch-settles b =
      let (tried, storage) = attempt svc s m.started_at b.storage in
      settled_after_attempt b.schedules (open_run svc s m b.runs) storage tried
