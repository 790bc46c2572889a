-- ===== src/Tests/SchedulerCases.antt =====
-- The theorems on the backup scheduler at concrete inputs.
use fastapi_modular_template.Base.{
  ℕ, ◌+◌, arith, refl, String, ◌≡◌, true, false, Option, none, some, List, [], ◌∷◌, ◌==◌,
  if◌then◌else◌, elem, Result, value_error, ok, err,
}
use fastapi_modular_template.Scheduler.Retention.Reference.{survivors}
use fastapi_modular_template.Scheduler.Retention.Survivors.{prune-survivors}
use fastapi_modular_template.Tasks.{pos}
use fastapi_modular_template.Scheduler.Tables.{
  Schedule, Run, SinkConfig, platform, full, success, running,
}
use fastapi_modular_template.Scheduler.Retention.{prune, ids}
use fastapi_modular_template.Scheduler.Dispatch.{Services, Moment, Backups, dispatch}
use fastapi_modular_template.Scheduler.Dispatch.Settled.{RunIsSettled, dispatch-settles}

-- The storage is the list of the snapshots' names. A cron expression is right if it is "daily".
abbrev services_with : Result String → Services (List String)
services_with exported = record {
  app_name = "app";
  export_platform = exported;
  export_platform_delta = λ from. exported;
  export_tenant = λ id slug. exported;
  export_tenant_delta = λ id slug from. exported;
  resolve_passphrase = λ s. ok none;
  encrypt_bundle = λ bundle p. ok bundle;
  fingerprint = λ p. p;
  sha256 = λ s. s;
  byte_size = λ s. 6;
  put = λ sink blob storage. (ok ("snapshot", 6), "snapshot" ∷ storage);
  delete = λ sink locator storage. (ok tt, []);
  cron_next =
      λ cron from. if cron == "daily" then ok (from + 86400) else err (value_error "bad cron");
  message = λ e. "failed";
}

abbrev services : Services (List String)
services = services_with (ok "bundle")

abbrev disk : SinkConfig
disk = record {
  root_dir = some "/backups";
  base_url = none;
  token = none;
  repo_url = none;
  clone_dir = none;
  branch = none;
  path_template = none;
  lfs_enabled = true;
}

abbrev schedule_with : Option String → Schedule
schedule_with cron = record {
  id = "s1";
  scope = platform;
  tenant_id = none;
  tenant_slug = none;
  sink_type = "local_disk";
  sink_config = disk;
  cron_expr = cron;
  next_run_at = none;
  kind = full;
  retention_days = none;
  keep_last = some (pos 1);
  is_active = true;
  managed_by = "local";
}

abbrev moment : Moment
moment = record {
  run_id = "r1";
  started_at = 1000;
  created_at = 1000;
  finished_at = 1010;
  prune_at = 1011;
}

abbrev backups_of : Schedule → Backups (List String)
backups_of s = record { schedules = s ∷ []; runs = []; storage = [] }

dispatch-settles_example :
    RunIsSettled "r1"
      (dispatch services
        (schedule_with (some "never"))
        moment
        (backups_of (schedule_with (some "never")))).runs
dispatch-settles_example =
    dispatch-settles services (schedule_with (some "never")) moment
      (backups_of (schedule_with (some "never")))

-- The run as it is while the export goes on.
abbrev opened : Run
opened = record {
  id = "r1";
  schedule_id = "s1";
  app_slug = "app";
  scope = platform;
  tenant_slug = none;
  kind = full;
  status = running;
  sink_type = "local_disk";
  sink_locator = none;
  bytes_written = none;
  sha256 = none;
  encrypted = false;
  key_fingerprint = none;
  started_at = 1000;
  finished_at = none;
  error = none;
  managed_by = "local";
  created_at = 1000;
}

abbrev done_at : String → ℕ → Run
done_at id created_at = record opened { id = id; status = success; created_at = created_at }

prune-survivors_example :
    let runs = done_at "r1" 100 ∷ done_at "r2" 200 ∷ [] in
    elem "r1" (ids (prune {S = List String} (λ l s. (ok tt, s)) (schedule_with none) 300 runs []).0)
    ≡ elem "r1" (ids (survivors (schedule_with none) 300 2 runs))
prune-survivors_example =
    prune-survivors {S = List String} (λ l s. (ok tt, s)) (schedule_with none) 300
      (done_at "r1" 100 ∷ done_at "r2" 200 ∷ []) [] "r1" (omega arith, (omega arith, tt))
      (refl, (refl, tt))
