-- ===== src/Tests/DiskCases.antt =====
-- The theorems on the disk sink at concrete inputs.
use fastapi_modular_template.Base.{
  ℕ, String, ◌≡◌, refl, true, false, none, [], ◌∷◌, cut_prefix, not_found_error, ok, err,
}
use fastapi_modular_template.Scheduler.Tables.{Blob, platform, full}
use fastapi_modular_template.Scheduler.Disk.{
  FilePath, Disk, same_path, read_file, parts, walk, resolve_path, is_within, default_filename,
  put_snapshot, get_snapshot, unlink_snapshot, verify_snapshot,
}
use fastapi_modular_template.Scheduler.Disk.Confined.{put-get, unlink_snapshot-confined}

abbrev blob : String → Blob
blob content = record {
  content = content;
  sha256 = content;
  size = 1;
  app_slug = "app";
  scope = platform;
  kind = full;
  created_at = 7;
  encrypted = false;
  key_fingerprint = none;
  tenant_slug = none;
}

abbrev stamp : ℕ → String
stamp t = "20260101T000007Z"

abbrev metadata : Blob → String
metadata b = b.sha256

abbrev root : FilePath
root = "backups" ∷ []

abbrev file_name : String
file_name = "20260101T000007Z-full.tar.gz"

put-get_example :
    let (locator, disk) = put_snapshot stamp metadata root (blob "a") [] in
    (get_snapshot root locator disk ≡ ok "a")
    × (verify_snapshot (λ s. s) root locator "a" disk ≡ ok true)
    × (get_snapshot root locator (unlink_snapshot root locator disk).1
        ≡ err (not_found_error "no snapshot"))
unfolding default_filename resolve_path parts walk is_within same_path cut_prefix
put-get_example =
    put-get stamp metadata root (λ s. s) (blob "a") [] file_name ("platform" ∷ "app" ∷ root) refl
      refl

abbrev disk : Disk
disk = ("passwd" ∷ "etc" ∷ [], "secret") ∷ []

unlink_snapshot-confined_example :
    read_file ("passwd" ∷ "etc" ∷ []) (unlink_snapshot root "../etc/passwd" disk).1
    ≡ read_file ("passwd" ∷ "etc" ∷ []) disk
unfolding read_file is_within same_path
unlink_snapshot-confined_example =
    unlink_snapshot-confined root "../etc/passwd" disk ("passwd" ∷ "etc" ∷ []) refl refl
