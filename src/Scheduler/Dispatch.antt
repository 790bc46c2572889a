-- ===== src/Scheduler/Dispatch.antt =====
-- `_dispatch`, `_run_export`, `_advance_next_run_at` and `tick_once` of
-- scottycore/services/backup/scheduler.py.
pub mod Advance
pub mod Settled
use fastapi_modular_template.Base.{
  ℕ, String, Bool, false, not, ◌||◌, Option, none, some, List, [], ◌∷◌, eqb, if◌then◌else◌, is_some,
  ◌⧺◌, truthy, Error, Result, ◌>>=◌, value_error, ok, err,
}
use fastapi_modular_template.Scheduler.Tables.{
  running, BackupScope, platform, tenant, unknown_scope, Kind, full, delta, Schedule, Run, Blob,
  mark_run_failed, mark_run_success, mark_run_status, mark_run_pending, update_schedules,
  due_schedules,
}
use fastapi_modular_template.Scheduler.Sinks.{Sink, build_sink_from_config}
use fastapi_modular_template.Scheduler.Retention.{prune, or_zero, is_zero}

-- The backup service and the libraries that a run calls; each may raise. `S` is the storage behind
-- the sinks.
pub record Services (S : Type 0) : Type 0 where
  pub app_name : String
  pub export_platform : Result String
  pub export_platform_delta : Option ℕ → Result String
  pub export_tenant : String → String → Result String
  pub export_tenant_delta : String → String → Option ℕ → Result String
  pub resolve_passphrase : Schedule → Result (Option String)
  pub encrypt_bundle : String → String → Result String
  pub fingerprint : String → String
  pub sha256 : String → String
  pub byte_size : String → ℕ
  pub put : Sink → Blob → S → Result (String × ℕ) × S
  pub delete : Sink → String → S → Result (Unit {0}) × S
  pub cron_next : String → ℕ → Result ℕ
  pub message : Error → String

-- The new run's key, and the clock as the run goes on.
pub record Moment : Type 0 where
  pub run_id : String
  pub started_at : ℕ
  pub created_at : ℕ
  pub finished_at : ℕ
  pub prune_at : ℕ

pub record Backups (S : Type 0) : Type 0 where
  pub schedules : List Schedule
  pub runs : List Run
  pub storage : S

-- What a sink has taken.
pub record Stored : Type 0 where
  pub sink : Sink
  pub blob : Blob
  pub locator : String
  pub bytes_written : ℕ

-- A one-shot schedule is over.
abbrev pub retire : Schedule → Schedule
retire s = record s { next_run_at = none; is_active = false }

abbrev pub set_next : ℕ → Schedule → Schedule
set_next at s = record s { next_run_at = some at }

abbrev pub has_retention : Schedule → Bool
has_retention s = not (is_zero (or_zero s.retention_days)) || not (is_zero (or_zero s.keep_last))

module _ {S : Type 0} (svc : Services S) where
  -- The delta of a platform starts at `_last_success_time`, which is always None.
  unfoldable pub export_platform_kind : Kind → Result String
  export_platform_kind delta = svc.export_platform_delta none
  export_platform_kind full = svc.export_platform

  unfoldable pub export_tenant_kind : Kind → String → String → Result String
  export_tenant_kind delta id slug = svc.export_tenant_delta id slug none
  export_tenant_kind full id slug = svc.export_tenant id slug

  unfoldable pub export_scope : BackupScope → Schedule → Result (String × Option String)
  export_scope platform s = export_platform_kind s.kind >>= (λ bundle. ok (bundle, none))
  export_scope tenant s = elim (truthy s.tenant_id) [
    | none ↦ err (value_error "tenant schedule missing tenant_id/slug")
    | some id ↦ elim (truthy s.tenant_slug) [
      | none ↦ err (value_error "tenant schedule missing tenant_id/slug")
      | some slug ↦ export_tenant_kind s.kind id slug >>= (λ bundle. ok (bundle, some slug))
    ]
  ]
  export_scope (unknown_scope name) s = err (value_error ("unknown scope: " ⧺ name))

  unfoldable pub run_export : Schedule → Result (String × Option String)
  run_export s = export_scope s.scope s

  -- The bundle and the fingerprint of its key, if a passphrase is set.
  unfoldable pub seal : String → Option String → Result (String × Option String)
  seal bundle passphrase = elim (truthy passphrase) [
    | none ↦ ok (bundle, none)
    | some p ↦ svc.encrypt_bundle bundle p >>= (λ sealed. ok (sealed, some (svc.fingerprint p)))
  ]

  unfoldable pub make_blob : Schedule → ℕ → Result Blob
  make_blob s started_at = run_export s >>= (λ exported. svc.resolve_passphrase s >>= (λ passphrase.
      seal exported.0 passphrase >>= (λ sealed. ok (record {
        content = sealed.0;
        sha256 = svc.sha256 sealed.0;
        size = svc.byte_size sealed.0;
        app_slug = svc.app_name;
        scope = s.scope;
        kind = s.kind;
        created_at = started_at;
        encrypted = is_some sealed.1;
        key_fingerprint = sealed.1;
        tenant_slug = exported.1;
      }))))

  unfoldable pub put_blob : Result (Sink × Blob) → S → Result Stored × S
  put_blob (err e) storage = (err e, storage)
  put_blob (ok (sink, blob)) storage =
      let (written, after) = svc.put sink blob storage in
      (
        written
            >>= (λ w. ok (record { sink = sink; blob = blob; locator = w.0; bytes_written = w.1 })),
        after,
      )

  -- The `try` of `_dispatch` up to `sink.put`.
  unfoldable pub attempt : Schedule → ℕ → S → Result Stored × S
  attempt s started_at storage =
      put_blob
        (make_blob s started_at >>= (λ blob.
          build_sink_from_config s.sink_type s.sink_config >>= (λ sink. ok (sink, blob))))
        storage

  unfoldable pub advance_next_run_at : Schedule → ℕ → List Schedule → Result (List Schedule)
  advance_next_run_at s base schedules = elim (truthy s.cron_expr) [
    | none ↦ ok (update_schedules s.id retire schedules)
    | some cron ↦
        svc.cron_next cron base >>= (λ at. ok (update_schedules s.id (set_next at) schedules))
  ]

  unfoldable pub fail_run : Moment → Error → List Schedule → List Run → S → Backups S
  fail_run m e schedules runs storage = record {
    schedules = schedules;
    runs = mark_run_failed m.run_id (svc.message e) m.finished_at runs;
    storage = storage;
  }

  unfoldable pub after_advance :
      Schedule → Moment → Sink → List Schedule → List Run → S → Result (List Schedule) → Backups S
  after_advance s m sink schedules runs storage (err e) = fail_run m e schedules runs storage
  after_advance s m sink schedules runs storage (ok advanced) =
      let (kept, left) = prune (svc.delete sink) s m.prune_at runs storage in
      if has_retention s
      then record { schedules = advanced; runs = kept; storage = left }
      else record { schedules = advanced; runs = runs; storage = storage }

  unfoldable pub after_attempt :
      Schedule → Moment → List Schedule → List Run → S → Result Stored → Backups S
  after_attempt s m schedules runs storage (err e) = fail_run m e schedules runs storage
  after_attempt s m schedules runs storage (ok w) =
      after_advance s m w.sink schedules
        (mark_run_success m.run_id w.blob w.locator w.bytes_written m.finished_at runs) storage
        (advance_next_run_at s m.started_at schedules)

  -- The runs when the export starts.
  unfoldable pub open_run : Schedule → Moment → List Run → List Run
  open_run s m runs =
      mark_run_status m.run_id running
        (mark_run_pending m.run_id svc.app_name m.started_at m.created_at s runs)

  unfoldable pub dispatch : Schedule → Moment → Backups S → Backups S
  dispatch s m b =
      let (tried, storage) = attempt s m.started_at b.storage in
      after_attempt s m b.schedules (open_run s m b.runs) storage tried

  -- The schedules that were due, one after the other, each with its moment.
  unfoldable pub dispatch_all : List Schedule → List Moment → Backups S → Backups S
  dispatch_all [] ms b = b
  dispatch_all (s ∷ ss) [] b = b
  dispatch_all (s ∷ ss) (m ∷ ms) b = dispatch_all ss ms (dispatch s m b)

  unfoldable pub tick_once : ℕ → List Moment → Backups S → Backups S
  tick_once now ms b = dispatch_all (due_schedules now b.schedules) ms b
