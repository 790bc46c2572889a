-- ===== src/Scheduler/Sinks.antt =====
-- `_build_sink_from_config` of scottycore/services/backup/scheduler.py.
use fastapi_modular_template.Base.{
  String, Bool, Option, none, some, ◌==◌, if◌then◌else◌, ◌⧺◌, truthy, Result, value_error, ok, err,
}
use fastapi_modular_template.Scheduler.Tables.{SinkConfig}

-- The sink that is built, with its arguments.
pub data Sink : Type 0 where
  local_disk : String → Sink
  scottydev : String → Option String → Sink
  git_repo : String → String → String → String → Bool → Sink

-- `config.get(key) or default`
abbrev pub or_default : Option String → String → String
or_default value default = elim (truthy value) [ none ↦ default | some s ↦ s ]

unfoldable pub build_sink_from_config : String → SinkConfig → Result Sink
build_sink_from_config sink_type config =
    if sink_type == "local_disk"
    then ok (local_disk (or_default config.root_dir "/app/data/backups"))
    else if sink_type == "scottydev"
    then (elim (truthy config.base_url) [
      | none ↦ err (value_error "orchestrator sink requires base_url")
      | some base ↦ ok (scottydev base config.token)
    ])
    else if sink_type == "git_repo"
    then (elim (truthy config.repo_url) [
      | none ↦ err (value_error "git_repo sink requires repo_url")
      | some repo_url ↦ ok (
          git_repo repo_url (or_default config.clone_dir "/app/data/backups-git")
            (or_default config.branch "backups")
            (or_default config.path_template "snapshots/{app_slug}/{scope}/{tenant_slug}")
            config.lfs_enabled)
    ])
    else err (value_error ("unsupported sink_type for scheduler: " ⧺ sink_type))
