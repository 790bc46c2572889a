-- ===== src/Scheduler/Disk/Confined.antt =====
-- What the disk sink writes and removes, and which snapshots share a file.
use fastapi_modular_template.Base.{
  ℕ, String, ◌≡◌, refl, ap, inl, inr, true, false, none, some, [], ◌∷◌, arith, ◌==◌, eq_iff,
  eq_refl, if◌then◌else◌, Bool-cases, ◌⧺◌, not_found_error, ok, err,
}
use Prim.Native.String
use text.Mathlib.TextLemmas.{length-append as count-append}
use fastapi_modular_template.Scheduler.Tables.{Blob}
use fastapi_modular_template.Scheduler.Disk.{
  FilePath, Disk, same_path, read_file, unlink, write_file, resolve_path, sidecar_of,
  default_filename, put_snapshot, is_within, resolve_snapshot, get_snapshot, unlink_snapshot,
  verify_snapshot,
}

pub same_path-eq : (p q : FilePath) → same_path p q ≡ true → p ≡ q
unfolding same_path
same_path-eq [] [] h = refl
same_path-eq [] (b ∷ q) h = ground arith
same_path-eq (a ∷ p) [] h = ground arith
same_path-eq (a ∷ p) (b ∷ q) h = ground (arith, eq_iff a b, same_path-eq p q)

pub same_path_refl : (p : FilePath) → same_path p p ≡ true
unfolding same_path
same_path_refl [] = refl
same_path_refl (a ∷ p) = ground (arith, eq_refl a, same_path_refl p)

read-unlink :
    (path other : FilePath) (disk : Disk)
    → read_file other (unlink path disk)
      ≡ (if same_path path other then none else read_file other disk)
unfolding read_file unlink
read-unlink path other [] = ground arith
read-unlink path other ((first, content) ∷ disk) = ground (
  arith,
  read-unlink path other disk,
  same_path-eq first path,
  same_path-eq first other,
  same_path-eq path other,
  same_path_refl path,
  same_path_refl other,
)

read-write :
    (path other : FilePath) (content : String) (disk : Disk)
    → read_file other (write_file path content disk)
      ≡ (if same_path path other then some content else read_file other disk)
unfolding read_file write_file
read-write path other content disk = ground (arith, read-unlink path other disk)

-- A sidecar is not the file that it belongs to.
longer : (name : String) → (name ⧺ ".meta.json" == name) ≡ false
longer name = elim (Bool-cases (name ⧺ ".meta.json" == name)) [
  | inl same ↦ absurd (
      omega (
        arith,
        ap String.count ((eq_iff (name ⧺ ".meta.json") name).0 same),
        count-append name ".meta.json",
      ))
  | inr differs ↦ differs
]

sidecar-differs :
    (name : String) (dirs : FilePath) → same_path (sidecar_of (name ∷ dirs)) (name ∷ dirs) ≡ false
unfolding same_path
sidecar-differs name dirs = ground (arith, longer name)

get-found :
    (root : FilePath) (locator content : String) (disk : Disk)
    → is_within root (resolve_path root locator) ≡ true
    → read_file (resolve_path root locator) disk ≡ some content
    → get_snapshot root locator disk ≡ ok content
unfolding get_snapshot resolve_snapshot
get-found root locator content disk inside found = ground (arith, inside, found)

verify-found :
    (sha256 : String → String) (root : FilePath) (locator content : String) (disk : Disk)
    → is_within root (resolve_path root locator) ≡ true
    → read_file (resolve_path root locator) disk ≡ some content
    → verify_snapshot sha256 root locator (sha256 content) disk ≡ ok true
unfolding verify_snapshot resolve_snapshot
verify-found sha256 root locator content disk inside found =
    ground (arith, inside, found, eq_refl (sha256 content))

get-unlinked :
    (root : FilePath) (locator content : String) (disk : Disk)
    → is_within root (resolve_path root locator) ≡ true
    → read_file (resolve_path root locator) disk ≡ some content
    → get_snapshot root locator (unlink_snapshot root locator disk).1
      ≡ err (not_found_error "no snapshot")
unfolding get_snapshot resolve_snapshot unlink_snapshot
get-unlinked root locator content disk inside found =
    let target = resolve_path root locator in
    ground (
      arith,
      inside,
      found,
      read-unlink (sidecar_of target) target (unlink target disk),
      read-unlink target target disk,
      same_path_refl target,
    )

module _ (stamp : ℕ → String) (metadata : Blob → String) (root : FilePath) where
  abbrev target_of : Blob → FilePath
  target_of blob = resolve_path root (default_filename stamp blob)

  put-read :
      (blob : Blob) (disk : Disk) (name : String) (dirs : FilePath)
      → target_of blob ≡ name ∷ dirs
      → read_file (target_of blob) (put_snapshot stamp metadata root blob disk).1
        ≡ some blob.content
  unfolding put_snapshot
  put-read blob disk name dirs target = ground (
    arith,
    target,
    read-write (sidecar_of (target_of blob)) (target_of blob) (metadata blob)
        (write_file (target_of blob) blob.content disk),
    read-write (target_of blob) (target_of blob) blob.content disk,
    sidecar-differs name dirs,
    same_path_refl (target_of blob),
  )

  -- A snapshot that was put at a place within the root is read back, verifies against its hash,
  -- and is there no more after its deletion.
  pub put-get :
      (sha256 : String → String) (blob : Blob) (disk : Disk) (name : String) (dirs : FilePath)
      → target_of blob ≡ name ∷ dirs
      → is_within root (target_of blob) ≡ true
      → (get_snapshot root
            (put_snapshot stamp metadata root blob disk).0
            (put_snapshot stamp metadata root blob disk).1
          ≡ ok blob.content)
        × (verify_snapshot sha256 root
              (put_snapshot stamp metadata root blob disk).0
              (sha256 blob.content)
              (put_snapshot stamp metadata root blob disk).1
            ≡ ok true)
        × (get_snapshot root
              (put_snapshot stamp metadata root blob disk).0
              (unlink_snapshot root
                (put_snapshot stamp metadata root blob disk).0
                (put_snapshot stamp metadata root blob disk).1).1
            ≡ err (not_found_error "no snapshot"))
  unfolding put_snapshot
  put-get sha256 blob disk name dirs target inside =
      let rel = default_filename stamp blob in
      let after = (put_snapshot stamp metadata root blob disk).1 in
      let found = put-read blob disk name dirs target in
      (
        get-found root rel blob.content after inside found,
        verify-found sha256 root rel blob.content after inside found,
        get-unlinked root rel blob.content after inside found,
      )

  same_name :
      (first second : Blob)
      → first.app_slug ≡ second.app_slug
      → first.scope ≡ second.scope
      → first.tenant_slug ≡ second.tenant_slug
      → first.kind ≡ second.kind
      → first.encrypted ≡ second.encrypted
      → stamp first.created_at ≡ stamp second.created_at
      → default_filename stamp first ≡ default_filename stamp second
  unfolding default_filename
  same_name first second app scope slug kind locked time = cc

  -- Two snapshots of one application, scope, tenant, kind and encryption whose times have the same
  -- stamp share a file, within the root: the later one is what the locator of the earlier one
  -- yields, and deleting the earlier one removes the later one.
  same_name-overwrites :
      (first second : Blob) (disk : Disk) (name : String) (dirs : FilePath)
      → first.app_slug ≡ second.app_slug
      → first.scope ≡ second.scope
      → first.tenant_slug ≡ second.tenant_slug
      → first.kind ≡ second.kind
      → first.encrypted ≡ second.encrypted
      → stamp first.created_at ≡ stamp second.created_at
      → target_of second ≡ name ∷ dirs
      → is_within root (target_of second) ≡ true
      → let (locator, one) = put_snapshot stamp metadata root first disk in
        let (later, both) = put_snapshot stamp metadata root second one in
        (get_snapshot root locator both ≡ ok second.content)
        × (get_snapshot root later (unlink_snapshot root locator both).1
            ≡ err (not_found_error "no snapshot"))
  unfolding put_snapshot
  same_name-overwrites first second disk name dirs app scope slug kind locked time target inside =
      let one = (put_snapshot stamp metadata root first disk).1 in
      let both = (put_snapshot stamp metadata root second one).1 in
      let rel = default_filename stamp second in
      let found = put-read second one name dirs target in
      let same = same_name first second app scope slug kind locked time in
      (
        ground (arith, same, get-found root rel second.content both inside found),
        ground (arith, same, get-unlinked root rel second.content both inside found),
      )

-- A path outside is neither a path within nor beside one.
outside-differs :
    (root target path : FilePath)
    → is_within root target ≡ true
    → is_within root path ≡ false
    → same_path target path ≡ false
outside-differs root target path inside outside = elim (Bool-cases (same_path target path)) [
  | inl same ↦ ground (arith, inside, outside, ap (is_within root) (same_path-eq target path same))
  | inr differs ↦ differs
]

sidecar-within :
    (root target : FilePath)
    → is_within root target ≡ true
    → same_path root target ≡ false
    → is_within root (sidecar_of target) ≡ true
unfolding is_within
sidecar-within root [] inside proper = ground (arith, inside, proper)
sidecar-within root (p ∷ ps) inside proper = ground (arith, inside, proper)

-- A deletion leaves every file outside the root as it is, whatever the locator, if the root is no
-- file.
pub unlink_snapshot-confined :
    (root : FilePath) (locator : String) (disk : Disk) (path : FilePath)
    → read_file root disk ≡ none
    → is_within root path ≡ false
    → read_file path (unlink_snapshot root locator disk).1 ≡ read_file path disk
unfolding unlink_snapshot resolve_snapshot
unlink_snapshot-confined root locator disk path directory outside =
    let target = resolve_path root locator in
    elim (Bool-cases (is_within root target)) [
      | inr escapes ↦ ground (arith, escapes)
      | inl inside ↦ elim (Bool-cases (same_path root target)) [
        | inl top ↦
            ground
              (arith, inside, directory, ap (λ p. read_file p disk) (same_path-eq root target top))
        | inr proper ↦ ground (
          arith,
          inside,
          read-unlink (sidecar_of target) path (unlink target disk),
          read-unlink target path disk,
          outside-differs root target path inside outside,
          outside-differs root (sidecar_of target) path (sidecar-within root target inside proper)
              outside,
        )
      ]
    ]
