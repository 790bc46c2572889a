-- ===== src/Scheduler/Disk.antt =====
-- The sink on a local disk: scottycore/services/backup/sinks/local_disk.py, and `default_filename`
-- of scottycore/services/backup/sinks/base.py. The disk has no symbolic links; a directory is there
-- as soon as a file is in it.
pub mod Confined
use fastapi_modular_template.Base.{
  ℕ, String, Bool, true, false, not, ◌&&◌, ◌||◌, Option, none, some, List, [], ◌∷◌, ◌==◌, eqb,
  if◌then◌else◌, ◌⧺◌, cut_prefix, truthy, Result, not_found_error, ok, err,
}
use Prim.Native.String
use Prim.Native.Char.{Char, code}
use fastapi_modular_template.Scheduler.Tables.{
  Blob, BackupScope, platform, tenant, unknown_scope, Kind, full, delta,
}

-- A path is its names, the last one first.
abbrev pub FilePath : Type 0
FilePath = List String

-- The files and what they hold
abbrev pub Disk : Type 0
Disk = List (FilePath × String)

unfoldable pub same_path : FilePath → FilePath → Bool
same_path [] [] = true
same_path (a ∷ p) (b ∷ q) = a == b && same_path p q
same_path _ _ = false

unfoldable pub read_file : FilePath → Disk → Option String
read_file path [] = none
read_file path ((other, content) ∷ disk) =
    if same_path other path then some content else read_file path disk

unfoldable pub unlink : FilePath → Disk → Disk
unlink path [] = []
unlink path ((other, content) ∷ disk) =
    let rest = unlink path disk in if same_path other path then rest else (other, content) ∷ rest

unfoldable pub write_file : FilePath → String → Disk → Disk
write_file path content disk = (path, content) ∷ unlink path disk

-- `s.split("/")`
abbrev pub add_char : Char → List String → List String
add_char c [] = String.◌∷◌ c "" ∷ []
add_char c (p ∷ ps) = String.◌∷◌ c p ∷ ps

unfoldable pub parts : String → List String
parts String.[] = "" ∷ []
parts (String.◌∷◌ c s) =
    let rest = parts s in if eqb (code c) b'/' then "" ∷ rest else add_char c rest

abbrev pub parent : FilePath → FilePath
parent [] = []
parent (p ∷ ps) = ps

unfoldable pub walk : FilePath → List String → FilePath
walk path [] = path
walk path (p ∷ ps) =
    walk (if p == "" || p == "." then path else if p == ".." then parent path else p ∷ path) ps

-- `(root / locator).resolve()`; an absolute locator takes the place of the root.
unfoldable pub resolve_path : FilePath → String → FilePath
resolve_path root locator = elim (cut_prefix "/" locator) [
  | none ↦ walk root (parts locator)
  | some rest ↦ walk [] (parts rest)
]

-- `target.relative_to(root)` succeeds
unfoldable pub is_within : FilePath → FilePath → Bool
is_within root [] = same_path root []
is_within root (p ∷ ps) = same_path root (p ∷ ps) || is_within root ps

-- `path.with_suffix(path.suffix + ".meta.json")`
abbrev pub sidecar_of : FilePath → FilePath
sidecar_of [] = []
sidecar_of (name ∷ dirs) = (name ⧺ ".meta.json") ∷ dirs

abbrev pub scope_text : BackupScope → String
scope_text platform = "platform"
scope_text tenant = "tenant"
scope_text (unknown_scope s) = s

abbrev pub kind_text : Kind → String
kind_text full = "full"
kind_text delta = "delta"

abbrev pub extension : Bool → String
extension true = ".tar.gz.gpg"
extension false = ".tar.gz"

-- The directory of a tenant, where the snapshot is a tenant's
abbrev pub tenant_dir : BackupScope → Option String → String
tenant_dir platform slug = ""
tenant_dir (unknown_scope s) slug = ""
tenant_dir tenant slug = elim (truthy slug) [ none ↦ "" | some s ↦ s ⧺ "/" ]

-- `stamp` is the time in UTC as `%Y%m%dT%H%M%SZ`.
unfoldable pub default_filename : (ℕ → String) → Blob → String
default_filename stamp blob =
    blob.app_slug
    ⧺ "/"
    ⧺ scope_text blob.scope
    ⧺ "/"
    ⧺ tenant_dir blob.scope blob.tenant_slug
    ⧺ stamp blob.created_at
    ⧺ "-"
    ⧺ kind_text blob.kind
    ⧺ extension blob.encrypted

-- `metadata` is the sidecar's JSON.
module _ (stamp : ℕ → String) (metadata : Blob → String) (root : FilePath) where
  -- The locator, and the disk
  unfoldable pub put_snapshot : Blob → Disk → String × Disk
  put_snapshot blob disk =
      let rel = default_filename stamp blob in
      let target = resolve_path root rel in
      (rel, write_file (sidecar_of target) (metadata blob) (write_file target blob.content disk))

-- The path of a snapshot and what it holds
unfoldable pub resolve_snapshot : FilePath → String → Disk → Result (FilePath × String)
resolve_snapshot root locator disk =
    let target = resolve_path root locator in
    if not (is_within root target)
    then err (not_found_error "locator escapes root")
    else elim (read_file target disk) [
      | none ↦ err (not_found_error "no snapshot")
      | some content ↦ ok (target, content)
    ]

unfoldable pub get_snapshot : FilePath → String → Disk → Result String
get_snapshot root locator disk = elim (resolve_snapshot root locator disk) [
  | err e ↦ err e
  | ok found ↦ ok found.1
]

unfoldable pub unlink_snapshot : FilePath → String → Disk → Result (Unit {0}) × Disk
unlink_snapshot root locator disk = elim (resolve_snapshot root locator disk) [
  | err e ↦ (err e, disk)
  | ok found ↦ (ok tt, unlink (sidecar_of found.0) (unlink found.0 disk))
]

unfoldable pub verify_snapshot : (String → String) → FilePath → String → String → Disk → Result Bool
verify_snapshot sha256 root locator expected disk = elim (resolve_snapshot root locator disk) [
  | err e ↦ err e
  | ok found ↦ ok (sha256 found.1 == expected)
]
