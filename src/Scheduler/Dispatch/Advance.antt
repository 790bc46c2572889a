-- ===== src/Scheduler/Dispatch/Advance.antt =====
-- What a dispatch does to its schedule.
use fastapi_modular_template.Base.{
  ℕ, String, ◌≡◌, refl, ap, ◌∙◌, false, none, some, List, [], ◌∷◌, map, arith, eq_iff, elem, truthy,
  Error, Result, ◌>>=◌, ok, err,
}
use fastapi_modular_template.Scheduler.Sinks.{Sink}
use fastapi_modular_template.Scheduler.Tables.{
  Schedule, Run, schedule_by_id, update_schedules, due_schedules, run_by_id, update_runs, succeed,
  mark_run_success, fail, mark_run_failed,
}
use fastapi_modular_template.Scheduler.Dispatch.{
  dispatch, dispatch, Services, Moment, Backups, Stored, retire, set_next, attempt,
  advance_next_run_at, fail_run, after_advance, after_attempt, open_run,
}

abbrev pub schedule_ids : List Schedule → List String
schedule_ids ss = map (λ (s : Schedule). s.id) ss

due_schedules-retire :
    (id : String) (now : ℕ) (ss : List Schedule)
    → elem id (schedule_ids (due_schedules now (update_schedules id retire ss))) ≡ false
unfolding due_schedules update_schedules
due_schedules-retire id now [] = refl
due_schedules-retire id now (s ∷ ss) =
    ground (arith, due_schedules-retire id now ss, eq_iff s.id id)

schedule_by_id-update_schedules :
    (id : String) (f : Schedule → Schedule) (ss : List Schedule) (s : Schedule)
    → ((x : Schedule) → (f x).id ≡ x.id)
    → schedule_by_id id ss ≡ some s
    → schedule_by_id id (update_schedules id f ss) ≡ some (f s)
unfolding schedule_by_id update_schedules
schedule_by_id-update_schedules id f [] s same h = cc
schedule_by_id-update_schedules id f (x ∷ ss) s same h =
    ground (arith, same x, schedule_by_id-update_schedules id f ss s same)

run_by_id-update_runs :
    (id : String) (f : Run → Run) (rs : List Run) (r : Run)
    → ((x : Run) → (f x).id ≡ x.id)
    → run_by_id id rs ≡ some r
    → run_by_id id (update_runs id f rs) ≡ some (f r)
unfolding run_by_id update_runs
run_by_id-update_runs id f [] r same h = cc
run_by_id-update_runs id f (x ∷ rs) r same h =
    ground (arith, same x, run_by_id-update_runs id f rs r same)

module _ {S : Type 0} (svc : Services S) (s : Schedule) (m : Moment) (b : Backups S) where
  -- The tries of the run, up to the sink's answer.
  abbrev tried : Result Stored × S
  tried = attempt svc s m.started_at b.storage

  schedules_after_advance :
      (sink : Sink) (schedules : List Schedule) (runs : List Run) (storage : S)
      (advanced : List Schedule)
      → (after_advance svc s m sink schedules runs storage (ok advanced)).schedules ≡ advanced
  unfolding after_advance
  schedules_after_advance sink schedules runs storage advanced = ground arith

  -- Where a snapshot is stored and the next time is found, the schedules are the advanced ones.
  schedules-dispatch :
      (w : Stored) (advanced : List Schedule)
      → tried.0 ≡ ok w
      → advance_next_run_at svc s m.started_at b.schedules ≡ ok advanced
      → (dispatch svc s m b).schedules ≡ advanced
  unfolding dispatch after_attempt
  schedules-dispatch w advanced stored next =
      rw (stored, next)
        (schedules_after_advance w.sink b.schedules
          (mark_run_success m.run_id w.blob w.locator w.bytes_written m.finished_at
            (open_run svc s m b.runs))
          tried.1 advanced)

  advance-one_shot :
      truthy s.cron_expr ≡ none
      → advance_next_run_at svc s m.started_at b.schedules
        ≡ ok (update_schedules s.id retire b.schedules)
  unfolding advance_next_run_at
  advance-one_shot blank = rw (blank, advance_next_run_at) refl

  advance-cron :
      (cron : String) (next : Result ℕ)
      → truthy s.cron_expr ≡ some cron
      → svc.cron_next cron m.started_at ≡ next
      → advance_next_run_at svc s m.started_at b.schedules
        ≡ next >>= (λ at. ok (update_schedules s.id (set_next at) b.schedules))
  unfolding advance_next_run_at
  advance-cron cron next has_cron found = rw (has_cron, found, advance_next_run_at) refl

  -- After a snapshot was stored, a schedule without a cron expression is due at no time.
  one_shot_retires :
      (w : Stored) (now : ℕ)
      → tried.0 ≡ ok w
      → truthy s.cron_expr ≡ none
      → elem s.id (schedule_ids (due_schedules now (dispatch svc s m b).schedules)) ≡ false
  one_shot_retires w now stored blank =
      rw
        (schedules-dispatch w (update_schedules s.id retire b.schedules) stored
          (advance-one_shot blank))
        (due_schedules-retire s.id now b.schedules)

  -- After a snapshot was stored, a schedule with a cron expression is next due at the time that
  -- the expression gives from the start of the run.
  cron_advances :
      (w : Stored) (cron : String) (at : ℕ) (row : Schedule)
      → tried.0 ≡ ok w
      → truthy s.cron_expr ≡ some cron
      → svc.cron_next cron m.started_at ≡ ok at
      → schedule_by_id s.id b.schedules ≡ some row
      → schedule_by_id s.id (dispatch svc s m b).schedules
        ≡ some (record row { next_run_at = some at })
  cron_advances w cron at row stored has_cron next found =
      rw
        (schedules-dispatch w (update_schedules s.id (set_next at) b.schedules) stored
          (advance-cron cron (ok at) has_cron next))
        (schedule_by_id-update_schedules s.id (set_next at) b.schedules row (λ x. refl) found)

  -- Where a run raises before a snapshot is stored, the same schedules are due at every time as
  -- before it, and the run has failed with the message of the raise.
  failure_retries :
      (e : Error) (row : Run)
      → tried.0 ≡ err e
      → run_by_id m.run_id (open_run svc s m b.runs) ≡ some row
      → ((now : ℕ)
          → due_schedules now (dispatch svc s m b).schedules ≡ due_schedules now b.schedules)
        × (run_by_id m.run_id (dispatch svc s m b).runs
            ≡ some (fail (svc.message e) m.finished_at row))
  unfolding dispatch after_attempt fail_run mark_run_failed
  failure_retries e row raised found = (
    λ now. rw raised refl,
    rw raised (
        run_by_id-update_runs m.run_id (fail (svc.message e) m.finished_at)
          (open_run svc s m b.runs) row (λ x. refl) found),
  )

  dispatch-refused :
      (w : Stored) (e : Error)
      → tried.0 ≡ ok w
      → advance_next_run_at svc s m.started_at b.schedules ≡ err e
      → dispatch svc s m b
        ≡ fail_run svc m e b.schedules
            (mark_run_success m.run_id w.blob w.locator w.bytes_written m.finished_at
              (open_run svc s m b.runs))
            tried.1
  unfolding dispatch after_attempt after_advance
  dispatch-refused w e stored refused = rw (stored, refused) refl

  -- Where the snapshot is stored and the cron expression is then refused, the storage keeps the
  -- snapshot, no schedule changes and the run, with the snapshot's locator, counts as failed.
  bad_cron_fails_stored_run :
      (w : Stored) (e : Error) (cron : String) (row : Run)
      → tried.0 ≡ ok w
      → truthy s.cron_expr ≡ some cron
      → svc.cron_next cron m.started_at ≡ err e
      → run_by_id m.run_id (open_run svc s m b.runs) ≡ some row
      → ((dispatch svc s m b).storage ≡ tried.1)
        × ((dispatch svc s m b).schedules ≡ b.schedules)
        × (run_by_id m.run_id (dispatch svc s m b).runs
            ≡ some (
                fail
                  (svc.message e)
                  m.finished_at
                  (succeed w.blob w.locator w.bytes_written m.finished_at row)))
  unfolding fail_run mark_run_success mark_run_failed
  bad_cron_fails_stored_run w e cron row stored has_cron refused found =
      let done = succeed w.blob w.locator w.bytes_written m.finished_at in
      let failing = fail (svc.message e) m.finished_at in
      let opened = open_run svc s m b.runs in
      let settled = dispatch-refused w e stored (advance-cron cron (err e) has_cron refused) in
      (
        ap (λ (x : Backups S). x.storage) settled,
        ap (λ (x : Backups S). x.schedules) settled,
        ap (λ (x : Backups S). run_by_id m.run_id x.runs) settled
            ∙ run_by_id-update_runs m.run_id failing (update_runs m.run_id done opened) (done row)
                (λ x. refl) (run_by_id-update_runs m.run_id done opened row (λ x. refl) found),
      )
