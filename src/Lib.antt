-- ===== src/Lib.antt =====
-- A model of scottycore, the FastAPI template with authentication, tenants, mesh synchronisation
-- and scheduled backups, and the theorems that hold of it.
--
-- The parts and their files:
-- - Roles: the roles and `UserContext` (scottycore/core/schemas.py,
--   scottycore/services/auth/schemas.py).
-- - Tenants: tenant lookups and API keys (scottycore/services/tenants). The identity resolver reads
--   it, and the users service when it builds a context.
-- - Users: the users and roles tables and their repository (scottycore/services/users). Users.Service
--   is `UsersService`, one function per method; Users.Rows and Users.Emails hold the proofs.
-- - Auth: `AuthService` (scottycore/services/auth/service.py) in Auth.Lockout, Auth.Tokens, Auth.Totp
--   and Auth.Login; Auth.Resolve is scottycore/core/auth.py, from the headers of a request to its
--   user; Auth.Endpoints is scottycore/api/v1/auth.py.
-- - Sync: `MeshSyncEngine` (scottycore/services/sync/engine.py) with its tables. Sync.Lww is the rule
--   of the last write, Sync.Apply the application of rows, Sync.Bundle the parser of bundles,
--   Sync.Peers the peers and their backoff, Sync.Cycle one exchange with a peer, Sync.Workers the
--   table of the peers' tasks. Sync.Keys is scottycore/services/sync/auth.py with the vault helpers
--   of scottycore/services/sync/service.py; Sync.Registry and Sync.Identity are its `SyncService`.
-- - Scheduler: `BackupScheduler` (scottycore/services/backup/scheduler.py). Scheduler.Tables holds
--   the rows and their updates, Scheduler.Sinks the choice of a sink, Scheduler.Retention `_prune`,
--   with its reference in Scheduler.Retention.Reference, Scheduler.Dispatch `_dispatch` and a tick,
--   Scheduler.Disk the sink on a local disk (scottycore/services/backup/sinks/local_disk.py).
-- - Backup: `BackupService` (scottycore/services/backup/service.py). Backup.Bundle builds and
--   extracts bundles, Backup.Service exports and restores through the registered contributors, and
--   Backup.Service.Expected describes that apart from the code. Archive holds the names of a
--   bundle's members, which the engine of Sync reads too.
-- - Tasks: `TaskEngine` (scottycore/core/task_engine.py). Tasks.Listing its listings and
--   its trimming; Tasks.Steps is the relation of its steps: what the event loop, the coroutines and
--   the callers may do next.
-- - Settings: scottycore/services/settings, the schemas of the three tiers, the key-value table and
--   `SettingsService`.
-- - AutoUpdate: one poll of scottycore/services/auto_update/service.py, over the table of Settings.
-- - Backends: scottycore/services/ai_backends. Backends is the configuration from the baseline, the
--   environment and the settings, Backends.Reach the checks, the choice of a provider and the report,
--   Backends.Endpoints scottycore/api/v1/ai_backends.py, over the table of Settings.
-- - Files: `FilesService` (scottycore/services/files/service.py), Files.Service its operations.
-- - Items: scottycore/services/items, with the entries of scottycore/services/audit/service.py.
-- - Backup.Contributors: scottycore/services/backup/contributors.py, over the rows of a database.
-- - Tenants.Service: the slugs, `create`, `update` and `list` of the tenants service.
-- - Launcher: the supervisor of the web server in launch.py. Ports: the choice of an app's port in
--   scripts/scottycore-init.py.
-- - Base: shared helpers. Tests: test data, and theorems at concrete inputs.
--
-- A table is a list of rows in the order of insertion; a lookup takes the first row, as a unique
-- column has one. A method that writes takes the tables and gives its result beside the new tables;
-- an exception is `err`. What a raise rolls back is unchanged in the result. Times are natural
-- numbers, of seconds or, in Sync, microseconds, and are arguments where the code reads the clock;
-- a subtraction that would go below 0 stops there. New identifiers, salts and keys are arguments too.
--
-- bcrypt, SHA-256, the JWT library, pyotp, JSON, tarfile, croniter, HTTP and the case functions of
-- `str` are fields of records (Passwords, Jwt, Codes, Codec, World, Services), and what a theorem
-- needs of them is a hypothesis: `IsSigned`, that a token decodes until it expires, `IsJson`, that a
-- dumped list loads again. A backup contributor is a
-- parameter of Sync and of Backup; the backup service is one of
-- Scheduler. AES-GCM and the vault's session key are `Vault`, with `Opens`; the JSON of the settings
-- is `Json`, with `LoadsBack`; what pydantic makes of a value is `Coercion`, with `KeepsAccepted`;
-- the forge, the pattern of the pin and the order of versions are `AutoUpdate.World`.
--
-- The loops of the code run over lists and are structural recursion, but for the search for a free
-- port, whose fuel is one more than the number of recorded ports. The loops without an end
-- (`_peer_loop`, the scheduler's `_run`) are modelled by one round, the launcher's by its state after
-- n turns.
--
-- Not modelled: the cancellation of a dispatch by `stop`, the waits of the asyncio tasks, the sinks but the local disk, the contributors of
-- files and secrets, the search, the adapters of the AI backends, web pages, the other scripts, migrations,
-- and the endpoints other than those named above: they call external programs or services, or only
-- pass on what the services answer.
pub mod Base
pub mod Archive
pub mod Roles
pub mod Tenants
pub mod Users
pub mod Sync
pub mod Auth
pub mod Scheduler
pub mod Tests
pub mod Backup
pub mod Tasks
pub mod Settings
pub mod AutoUpdate
pub mod Backends
pub mod Files
pub mod Items
pub mod Launcher
pub mod Ports
