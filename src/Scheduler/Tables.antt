-- ===== src/Scheduler/Tables.antt =====
-- The tables of scottycore/services/backup/models.py, and the updates of one run or schedule that
-- scottycore/services/backup/scheduler.py commits: `_due_schedules`, `_mark_run_pending`,
-- `_mark_run_status`, `_mark_run_success`, `_mark_run_failed`. Times are in seconds.
use fastapi_modular_template.Base.{
  ℕ, String, Bool, true, false, not, ◌&&◌, Option, none, some, List, [], ◌∷◌, ◌++◌, ◌==◌, leb,
  if◌then◌else◌, filter,
}
use fastapi_modular_template.Tasks.{ℤ}

pub data Status : Type 0 where
  pending running success failed : Status

pub data BackupScope : Type 0 where
  platform tenant : BackupScope
  unknown_scope : String → BackupScope

pub data Kind : Type 0 where
  full delta : Kind

-- The entries of `sink_config` that are read.
pub record SinkConfig : Type 0 where
  pub root_dir : Option String
  pub base_url : Option String
  pub token : Option String
  pub repo_url : Option String
  pub clone_dir : Option String
  pub branch : Option String
  pub path_template : Option String
  pub lfs_enabled : Bool

pub record Schedule : Type 0 where
  pub id : String
  pub scope : BackupScope
  pub tenant_id : Option String
  pub tenant_slug : Option String
  pub sink_type : String
  pub sink_config : SinkConfig
  pub cron_expr : Option String
  pub next_run_at : Option ℕ
  pub kind : Kind
  pub retention_days : Option ℤ
  pub keep_last : Option ℤ
  pub is_active : Bool
  pub managed_by : String

pub record Run : Type 0 where
  pub id : String
  pub schedule_id : String
  pub app_slug : String
  pub scope : BackupScope
  pub tenant_slug : Option String
  pub kind : Kind
  pub status : Status
  pub sink_type : String
  pub sink_locator : Option String
  pub bytes_written : Option ℕ
  pub sha256 : Option String
  pub encrypted : Bool
  pub key_fingerprint : Option String
  pub started_at : ℕ
  pub finished_at : Option ℕ
  pub error : Option String
  pub managed_by : String
  pub created_at : ℕ

-- What a stored snapshot is.
pub record Blob : Type 0 where
  pub content : String
  pub sha256 : String
  pub size : ℕ
  pub app_slug : String
  pub scope : BackupScope
  pub kind : Kind
  pub created_at : ℕ
  pub encrypted : Bool
  pub key_fingerprint : Option String
  pub tenant_slug : Option String

abbrev pub is_due : ℕ → Schedule → Bool
is_due now s = s.is_active && elim s.next_run_at [ none ↦ true | some at ↦ leb at now ]

unfoldable pub due_schedules : ℕ → List Schedule → List Schedule
due_schedules now schedules = filter (is_due now) schedules

-- `s.get(BackupSchedule, id)` and a change of the row
unfoldable pub schedule_by_id : String → List Schedule → Option Schedule
schedule_by_id id [] = none
schedule_by_id id (s ∷ ss) = if s.id == id then some s else schedule_by_id id ss

unfoldable pub update_schedules : String → (Schedule → Schedule) → List Schedule → List Schedule
update_schedules id f [] = []
update_schedules id f (s ∷ ss) = (if s.id == id then f s else s) ∷ update_schedules id f ss

unfoldable pub run_by_id : String → List Run → Option Run
run_by_id id [] = none
run_by_id id (r ∷ rs) = if r.id == id then some r else run_by_id id rs

-- A change of the run with that key, if it is there.
unfoldable pub update_runs : String → (Run → Run) → List Run → List Run
update_runs id f [] = []
update_runs id f (r ∷ rs) = (if r.id == id then f r else r) ∷ update_runs id f rs

unfoldable pub delete_run : String → List Run → List Run
delete_run id rs = filter (λ r. not (r.id == id)) rs

-- `run_id` is the new row's key.
unfoldable pub mark_run_pending : String → String → ℕ → ℕ → Schedule → List Run → List Run
mark_run_pending run_id app_slug started_at created_at s runs =
    runs
    ++ record {
      id = run_id;
      schedule_id = s.id;
      app_slug = app_slug;
      scope = s.scope;
      tenant_slug = s.tenant_slug;
      kind = s.kind;
      status = pending;
      sink_type = s.sink_type;
      sink_locator = none;
      bytes_written = none;
      sha256 = none;
      encrypted = false;
      key_fingerprint = none;
      started_at = started_at;
      finished_at = none;
      error = none;
      managed_by = s.managed_by;
      created_at = created_at;
    }
      ∷ []

unfoldable pub mark_run_status : String → Status → List Run → List Run
mark_run_status run_id status = update_runs run_id (λ r. record r { status = status })

abbrev pub succeed : Blob → String → ℕ → ℕ → Run → Run
succeed blob locator bytes_written finished_at r = record r {
  status = success;
  sink_locator = some locator;
  bytes_written = some bytes_written;
  sha256 = some blob.sha256;
  encrypted = blob.encrypted;
  key_fingerprint = blob.key_fingerprint;
  finished_at = some finished_at;
}

unfoldable pub mark_run_success : String → Blob → String → ℕ → ℕ → List Run → List Run
mark_run_success run_id blob locator bytes_written finished_at =
    update_runs run_id (succeed blob locator bytes_written finished_at)

abbrev pub fail : String → ℕ → Run → Run
fail message now r = record r { status = failed; error = some message; finished_at = some now }

unfoldable pub mark_run_failed : String → String → ℕ → List Run → List Run
mark_run_failed run_id message now = update_runs run_id (fail message now)
