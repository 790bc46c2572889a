-- ===== src/Files/Service.antt =====
-- The operations of `FilesService`. `now` is the time of a change; the audit log is left out.
use fastapi_modular_template.Base.{
  ℕ, String, Bool, true, false, not, Option, none, some, List, [], ◌∷◌, ◌++◌, map, ◌==◌, ◌||◌,
  if◌then◌else◌, is_some, filter, str_leb, Result, forbidden_error, not_found_error,
  validation_error, other_error, ok, err,
}
use fastapi_modular_template.Scheduler.Disk.{FilePath, same_path, parent, walk, is_within}
use fastapi_modular_template.Files.{Host, secure_filename, tenant_root, safe_resolve}

-- A folder with its time of change, or a file with its size too
pub data Node : Type 0 where
  folder : ℕ → Node
  file : ℕ → ℕ → Node

abbrev pub Tree : Type 0
Tree = List (FilePath × Node)

unfoldable pub node_at : FilePath → Tree → Option Node
node_at path [] = none
node_at path ((other, node) ∷ tree) = if same_path other path then some node else node_at path tree

unfoldable pub without : FilePath → Tree → Tree
without path [] = []
without path ((other, node) ∷ tree) =
    let rest = without path tree in if same_path other path then rest else (other, node) ∷ rest

abbrev pub is_folder : Node → Bool
is_folder (folder at) = true
is_folder (file size at) = false

abbrev pub is_in : FilePath → FilePath → Bool
is_in dir [] = false
is_in dir (name ∷ path) = same_path dir path

-- `target.iterdir()`
unfoldable pub children : FilePath → Tree → Tree
children dir tree = filter (λ (b : FilePath × Node). is_in dir b.0) tree

-- The path with the place `from` at its start put in `to`
unfoldable pub moved : FilePath → FilePath → FilePath → FilePath
moved from to [] = if same_path from [] then to else []
moved from to (name ∷ path) =
    let rest = moved from to path in if same_path from (name ∷ path) then to else name ∷ rest

-- `target.rename(dest)`, with all that is below the target
unfoldable pub rename_tree : FilePath → FilePath → Tree → Tree
rename_tree from to [] = []
rename_tree from to ((path, node) ∷ tree) =
    (if is_within from path then moved from to path else path, node) ∷ rename_tree from to tree

pub record FileEntry : Type 0 where
  pub name : String
  pub path : FilePath
  pub is_dir : Bool
  pub size : ℕ
  pub mtime : ℕ

-- `path.relative_to(root)`
unfoldable pub relative_to : FilePath → FilePath → FilePath
relative_to root [] = []
relative_to root (name ∷ path) =
    let rest = relative_to root path in if same_path root (name ∷ path) then [] else name ∷ rest

abbrev pub name_of : FilePath → String
name_of [] = ""
name_of (name ∷ path) = name

unfoldable pub entry_from_path : FilePath → FilePath × Node → FileEntry
entry_from_path root (path, folder at) = record {
  name = name_of path;
  path = relative_to root path;
  is_dir = true;
  size = 0;
  mtime = at;
}
entry_from_path root (path, file size at) = record {
  name = name_of path;
  path = relative_to root path;
  is_dir = false;
  size = size;
  mtime = at;
}

-- `sorted(entries, key=lambda p: p.name.lower())`
module _ (lower : String → String) where
  unfoldable pub insert_by_name : FilePath × Node → Tree → Tree
  insert_by_name b [] = b ∷ []
  insert_by_name b (c ∷ cs) =
      if str_leb (lower (name_of b.0)) (lower (name_of c.0))
      then b ∷ c ∷ cs
      else c ∷ insert_by_name b cs

  unfoldable pub sorted_by_name : Tree → Tree
  sorted_by_name [] = []
  sorted_by_name (b ∷ bs) = insert_by_name b (sorted_by_name bs)

  -- The folders before the files
  unfoldable pub listed : Tree → Tree
  listed below =
      sorted_by_name (filter (λ (b : FilePath × Node). is_folder b.1) below)
      ++ sorted_by_name (filter (λ (b : FilePath × Node). not (is_folder b.1)) below)

module _ (host : Host) (base : FilePath) (now : ℕ) where
  unfoldable pub ensure_tenant_dir : String → Tree → Result FilePath × Tree
  ensure_tenant_dir slug tree = elim (tenant_root host base slug) [
    | none ↦ (err (forbidden_error "Invalid tenant slug"), tree)
    | some root ↦ elim (node_at root tree) [
      | none ↦ (ok root, (root, folder now) ∷ tree)
      | some (folder at) ↦ (ok root, tree)
      | some (file size at) ↦ (err (other_error "FileExistsError"), tree)
    ]
  ]

  unfoldable pub list_files :
      (String → String) → String → String → Tree → Result (List FileEntry) × Tree
  list_files lower slug rel_path tree =
      let ensured = ensure_tenant_dir slug tree in
      elim ensured.0 [
        | err e ↦ (err e, ensured.1)
        | ok root ↦ elim (safe_resolve host base slug rel_path) [
          | none ↦ (err (forbidden_error "Path traversal detected"), ensured.1)
          | some target ↦ elim (node_at target ensured.1) [
            | none ↦ (err (not_found_error "Directory"), ensured.1)
            | some (file size at) ↦ (err (validation_error "not a directory"), ensured.1)
            | some (folder at) ↦ (
              ok (map (entry_from_path root) (listed lower (children target ensured.1))),
              ensured.1,
            )
          ]
        ]
      ]

  -- The making of a directory that a parent is there for
  unfoldable pub make_in : FilePath → FilePath → Tree → Result (Unit {0}) × Tree
  make_in parent_dir new_dir tree = elim (node_at parent_dir tree) [
    | none ↦ (err (not_found_error "Parent directory"), tree)
    | some found ↦
        if is_some (node_at new_dir tree)
        then (err (validation_error "already exists"), tree)
        else if not (is_folder found)
        then (err (other_error "NotADirectoryError"), tree)
        else (ok tt, (new_dir, folder now) ∷ tree)
  ]

  unfoldable pub mkdir : String → String → String → Tree → Result FileEntry × Tree
  mkdir slug path name tree =
      let safe_name = secure_filename host name in
      if safe_name == ""
      then (err (validation_error "Invalid directory name"), tree)
      else elim (safe_resolve host base slug path) [
        | none ↦ (err (forbidden_error "Path traversal detected"), tree)
        | some parent_dir ↦
            let new_dir = walk parent_dir (safe_name ∷ []) in
            let made = make_in parent_dir new_dir tree in
            elim made.0 [
              | err e ↦ (err e, made.1)
              | ok done ↦
                  let ensured = ensure_tenant_dir slug made.1 in
                  elim ensured.0 [
                    | err e ↦ (err e, ensured.1)
                    | ok root ↦ (ok (entry_from_path root (new_dir, folder now)), ensured.1)
                  ]
            ]
      ]

  -- From the check of the destination on. `resolved` is where the destination leads; it is taken if
  -- its name is, or if it leads to a place that is there.
  unfoldable pub rename_to :
      FilePath → FilePath → Node → FilePath → FilePath → Tree → Result FileEntry × Tree
  rename_to root target node dest resolved tree =
      if not (is_within root resolved)
      then (err (forbidden_error "Path traversal detected in destination"), tree)
      else if is_some (node_at dest tree) || is_some (node_at resolved tree)
      then (err (validation_error "already exists"), tree)
      else (ok (entry_from_path root (dest, node)), rename_tree target dest tree)

  unfoldable pub rename : String → String → String → Tree → Result FileEntry × Tree
  rename slug path new_name tree =
      let safe_new_name = secure_filename host new_name in
      if safe_new_name == ""
      then (err (validation_error "Invalid new name"), tree)
      else elim (safe_resolve host base slug path) [
        | none ↦ (err (forbidden_error "Path traversal detected"), tree)
        | some target ↦ elim (node_at target tree) [
          | none ↦ (err (not_found_error "File or directory"), tree)
          | some node ↦
              let ensured = ensure_tenant_dir slug tree in
              elim ensured.0 [
                | err e ↦ (err e, ensured.1)
                | ok root ↦
                    if same_path target root
                    then (
                      err (forbidden_error "Cannot rename the tenant root directory"),
                      ensured.1,
                    )
                    else rename_to root target node (walk (parent target) (safe_new_name ∷ []))
                        (host.realpath (parent target) (safe_new_name ∷ [])) ensured.1
              ]
        ]
      ]

  unfoldable pub delete_at : FilePath → Tree → Result (Unit {0}) × Tree
  delete_at target tree = elim (node_at target tree) [
    | none ↦ (err (not_found_error "File or directory"), tree)
    | some (file size at) ↦ (ok tt, without target tree)
    | some (folder at) ↦ elim (children target tree) [
      | [] ↦ (ok tt, without target tree)
      | c ∷ cs ↦ (err (validation_error "Directory is not empty"), tree)
    ]
  ]

  unfoldable pub delete : String → String → Tree → Result (Unit {0}) × Tree
  delete slug path tree = elim (safe_resolve host base slug path) [
    | none ↦ (err (forbidden_error "Path traversal detected"), tree)
    | some target ↦
        let ensured = ensure_tenant_dir slug tree in
        elim ensured.0 [
          | err e ↦ (err e, ensured.1)
          | ok root ↦
              if same_path target root
              then (err (forbidden_error "Cannot delete the tenant root directory"), ensured.1)
              else delete_at target ensured.1
        ]
  ]
