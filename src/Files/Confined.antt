-- ===== src/Files/Confined.antt =====
-- The operations on files change nothing outside the directory of the tenant.
use fastapi_modular_template.Base.{
  ℕ, String, ◌≡◌, refl, sym, ap, ◌∙◌, ◌⊎◌, inl, inr, true, false, ◌||◌, none, some, [], ◌∷◌, arith,
  ◌==◌, if◌then◌else◌, Bool-cases, Option-cases, is_some, Result-cases, ok,
}
use fastapi_modular_template.Scheduler.Disk.{FilePath, same_path, parent, walk, is_within}
use fastapi_modular_template.Scheduler.Disk.Confined.{same_path-eq, same_path_refl}
use fastapi_modular_template.Files.{Host, secure_filename, tenant_root, safe_resolve}
use fastapi_modular_template.Files.Service.{
  Node, folder, file, Tree, node_at, without, moved, rename_tree, ensure_tenant_dir, list_files,
  make_in, mkdir, rename_to, rename, delete_at, delete,
}

-- Everything outside a directory is as it was.
abbrev pub Outside : FilePath → Tree → Tree → Type 0
Outside root before after =
    (path : FilePath) → is_within root path ≡ false → node_at path after ≡ node_at path before

pub is_within_refl : (p : FilePath) → is_within p p ≡ true
unfolding is_within
is_within_refl [] = same_path_refl []
is_within_refl (n ∷ p) = ground (arith, same_path_refl (n ∷ p))

node_at-without :
    (path other : FilePath) (tree : Tree)
    → node_at other (without path tree)
      ≡ (if same_path path other then none else node_at other tree)
unfolding node_at without
node_at-without path other [] = ground arith
node_at-without path other ((first, node) ∷ tree) = ground (
  arith,
  node_at-without path other tree,
  same_path-eq first path,
  same_path-eq first other,
  same_path-eq path other,
  same_path_refl path,
  same_path_refl other,
)

-- Below a place below the root is below the root.
is_within_trans :
    (root q p : FilePath) → is_within root q ≡ true → is_within q p ≡ true → is_within root p ≡ true
unfolding is_within
is_within_trans root q [] h k = ground (arith, same_path-eq q [])
is_within_trans root q (n ∷ p) h k = elim (Bool-cases (same_path q (n ∷ p))) [
  | inl same ↦ sym (ap (is_within root) (same_path-eq q (n ∷ p) same)) ∙ h
  | inr below ↦ ground (arith, below, is_within_trans root q p h)
]

moved-within :
    (root from to p : FilePath)
    → is_within root to ≡ true
    → is_within from p ≡ true
    → is_within root (moved from to p) ≡ true
unfolding moved is_within
moved-within root from to [] h k = ground arith
moved-within root from to (n ∷ p) h k = ground (arith, moved-within root from to p h)

apart :
    (root p path : FilePath)
    → is_within root p ≡ true
    → is_within root path ≡ false
    → same_path p path ≡ false
apart root p path inside outside = elim (Bool-cases (same_path p path)) [
  | inr other ↦ other
  | inl same ↦ absurd (cc (ap (is_within root) (same_path-eq p path same)))
]

added-Outside :
    (root new : FilePath) (node : Node) (tree : Tree)
    → is_within root new ≡ true
    → Outside root tree ((new, node) ∷ tree)
unfolding node_at
added-Outside root new node tree inside path outside =
    ground (arith, apart root new path inside outside)

rename-Outside :
    (root target dest : FilePath) (tree : Tree)
    → is_within root target ≡ true
    → is_within root dest ≡ true
    → Outside root tree (rename_tree target dest tree)
unfolding node_at rename_tree
rename-Outside root target dest [] from to path outside = refl
rename-Outside root target dest ((p, node) ∷ tree) from to path outside =
    elim (Bool-cases (is_within target p)) [
      | inl below ↦ ground (
        arith,
        below,
        apart root p path (is_within_trans root target p from below) outside,
        apart root (moved target dest p) path (moved-within root target dest p to below) outside,
        rename-Outside root target dest tree from to path outside,
      )
      | inr other ↦ ground (arith, other, rename-Outside root target dest tree from to path outside)
    ]

without-Outside :
    (root target : FilePath) (tree : Tree)
    → is_within root target ≡ true
    → Outside root tree (without target tree)
without-Outside root target tree inside path outside =
    ground (arith, node_at-without target path tree, apart root target path inside outside)

Outside-trans :
    (root : FilePath) (a b c : Tree) → Outside root a b → Outside root b c → Outside root a c
Outside-trans root a b c h k path outside = k path outside ∙ h path outside

module _ (host : Host) (base : FilePath) (now : ℕ) (slug : String) (root : FilePath)
    (owned : tenant_root host base slug ≡ some root) where
  resolved-within :
      (rel_path : String) (target : FilePath)
      → safe_resolve host base slug rel_path ≡ some target
      → is_within root target ≡ true
  unfolding safe_resolve
  resolved-within rel_path target h = ground (arith, owned)

  ensure-tree :
      (tree : Tree)
      → ((ensure_tenant_dir host base now slug tree).1 ≡ tree)
        ⊎ ((ensure_tenant_dir host base now slug tree).1 ≡ (root, folder now) ∷ tree)
  unfolding ensure_tenant_dir
  ensure-tree tree = elim (Option-cases (node_at root tree)) [
    | inl fresh ↦ inr (ground (arith, owned, fresh))
    | inr (folder at, there) ↦ inl (ground (arith, owned, there))
    | inr (file size at, there) ↦ inl (ground (arith, owned, there))
  ]

  ensure-root :
      (tree : Tree) (r : FilePath) → (ensure_tenant_dir host base now slug tree).0 ≡ ok r → r ≡ root
  unfolding ensure_tenant_dir
  ensure-root tree r h = elim (Option-cases (node_at root tree)) [
    | inl fresh ↦ ground (arith, owned, fresh)
    | inr (folder at, there) ↦ ground (arith, owned, there)
    | inr (file size at, there) ↦ ground (arith, owned, there)
  ]

  ensure-Outside : (tree : Tree) → Outside root tree (ensure_tenant_dir host base now slug tree).1
  ensure-Outside tree path outside = elim (ensure-tree tree) [
    | inl same ↦ ap (node_at path) same
    | inr added ↦
        ap (node_at path) added
        ∙ added-Outside root root (folder now) tree (is_within_refl root) path outside
  ]

  parent-within :
      (p : FilePath) → is_within root p ≡ true → (root ≡ p) ⊎ (is_within root (parent p) ≡ true)
  unfolding is_within
  parent-within [] h = inl (same_path-eq root [] h)
  parent-within (n ∷ p) h = elim (Bool-cases (same_path root (n ∷ p))) [
    | inl same ↦ inl (same_path-eq root (n ∷ p) same)
    | inr other ↦ inr (ground (arith, other))
  ]

  -- A new directory is within the root, or its place is taken.
  make-place :
      (parent_dir : FilePath) (name : String) (tree : Tree)
      → is_within root parent_dir ≡ true
      → is_some (node_at (parent root) tree) ≡ true
      → (is_within root (walk parent_dir (name ∷ [])) ≡ true)
        ⊎ (is_some (node_at (walk parent_dir (name ∷ [])) tree) ≡ true)
  unfolding walk is_within
  make-place parent_dir name tree inside above = elim (Bool-cases (name == "" || name == ".")) [
    | inl here ↦ inl (ground (arith, here))
    | inr named ↦ elim (Bool-cases (name == "..")) [
      | inr plain ↦ inl (ground (arith, named, plain))
      | inl up ↦ elim (parent-within parent_dir inside) [
        | inr within ↦ inl (ground (arith, named, up, within))
        | inl top ↦ inr (ground (arith, named, up, top, above))
      ]
    ]
  ]

  make-Outside :
      (parent_dir : FilePath) (name : String) (tree : Tree)
      → is_within root parent_dir ≡ true
      → is_some (node_at (parent root) tree) ≡ true
      → Outside root tree (make_in host base now parent_dir (walk parent_dir (name ∷ [])) tree).1
  unfolding make_in
  make-Outside parent_dir name tree inside above path outside =
      let new_dir = walk parent_dir (name ∷ []) in
      elim (Option-cases (node_at parent_dir tree)) [
        | inl gone ↦ ground (arith, gone)
        | inr (found, there) ↦ elim (make-place parent_dir name tree inside above) [
          | inl within ↦
              ground
                (arith, there, added-Outside root new_dir (folder now) tree within path outside)
          | inr taken ↦ ground (arith, there, taken)
        ]
      ]

  list_files-Outside :
      (lower : String → String) (path : String) (tree : Tree)
      → Outside root tree (list_files host base now lower slug path tree).1
  unfolding list_files
  list_files-Outside lower path tree =
      let same : (list_files host base now lower slug path tree).1
          ≡ (ensure_tenant_dir host base now slug tree).1 =
        ground arith in
      rw same (ensure-Outside tree)

  mkdir-Outside :
      (path name : String) (tree : Tree)
      → is_some (node_at (parent root) tree) ≡ true
      → Outside root tree (mkdir host base now slug path name tree).1
  unfolding mkdir
  mkdir-Outside path name tree above place outside =
      let safe_name = secure_filename host name in
      elim (Option-cases (safe_resolve host base slug path)) [
        | inl blocked ↦ ground (arith, blocked)
        | inr (parent_dir, found) ↦
            let made = make_in host base now parent_dir (walk parent_dir (safe_name ∷ [])) tree in
            ground (
              arith,
              found,
              make-Outside parent_dir safe_name tree (resolved-within path parent_dir found) above
                  place outside,
              ensure-Outside made.1 place outside,
            )
      ]

  ensure-above :
      (tree : Tree)
      → is_some (node_at (parent root) tree) ≡ true
      → is_some (node_at (parent root) (ensure_tenant_dir host base now slug tree).1) ≡ true
  unfolding node_at
  ensure-above tree above = elim (ensure-tree tree) [
    | inl same ↦ ap (λ t. is_some (node_at (parent root) t)) same ∙ above
    | inr added ↦ ap (λ t. is_some (node_at (parent root) t)) added ∙ ground (arith, above)
  ]

  -- A renaming from a place below the root, to a name beside it
  rename_to-Outside :
      (target : FilePath) (node : Node) (name : String) (resolved : FilePath) (tree : Tree)
      → is_within root target ≡ true
      → same_path target root ≡ false
      → is_some (node_at (parent root) tree) ≡ true
      → Outside root tree
          (rename_to host base now root target node
            (walk (parent target) (name ∷ []))
            resolved
            tree).1
  unfolding rename_to
  rename_to-Outside target node name resolved tree inside lower above place outside =
      let dest = walk (parent target) (name ∷ []) in
      elim (parent-within target inside) [
        | inl top ↦
            let at_root : same_path target root ≡ true =
              ap (λ p. same_path p root) (sym top) ∙ same_path_refl root in
            absurd (ground (arith, at_root, lower))
        | inr beside ↦ elim (make-place (parent target) name tree beside above) [
          | inl within ↦
              ground (arith, rename-Outside root target dest tree inside within place outside)
          | inr taken ↦ ground (arith, taken)
        ]
      ]

  rename-Outside_all :
      (path name : String) (tree : Tree)
      → is_some (node_at (parent root) tree) ≡ true
      → Outside root tree (rename host base now slug path name tree).1
  unfolding rename
  rename-Outside_all path name tree above place outside =
      let ensured = ensure_tenant_dir host base now slug tree in
      elim (Option-cases (safe_resolve host base slug path)) [
        | inl blocked ↦ ground (arith, blocked)
        | inr (target, found) ↦ elim (Result-cases ensured.0) [
          | inr (e, refused) ↦ ground (arith, found, refused, ensure-Outside tree place outside)
          | inl (r, e) ↦ elim (Option-cases (node_at target tree)) [
            | inl gone ↦ ground (arith, found, gone)
            | inr (node, there) ↦ elim (Bool-cases (same_path target root)) [
              | inl top ↦ ground (
                arith,
                found,
                e,
                there,
                top,
                ensure-root tree r e,
                ensure-Outside tree place outside,
              )
              | inr lower ↦
                  let safe_name = secure_filename host name in
                  ground (
                    arith,
                    found,
                    e,
                    there,
                    lower,
                    ensure-root tree r e,
                    ensure-Outside tree place outside,
                    rename_to-Outside target node safe_name
                        (host.realpath (parent target) (safe_name ∷ [])) ensured.1
                        (resolved-within path target found) lower (ensure-above tree above) place
                        outside,
                  )
            ]
          ]
        ]
      ]

  delete-Outside :
      (path : String) (tree : Tree) → Outside root tree (delete host base now slug path tree).1
  unfolding delete delete_at
  delete-Outside path tree place outside =
      let ensured = ensure_tenant_dir host base now slug tree in
      elim (Option-cases (safe_resolve host base slug path)) [
        | inl blocked ↦ ground (arith, blocked)
        | inr (target, found) ↦ ground (
          arith,
          found,
          ensure-Outside tree place outside,
          without-Outside root target ensured.1 (resolved-within path target found) place outside,
        )
      ]

  -- Where something is left of a slug, the operations of the files service change nothing outside
  -- the directory that the slug leads to, whatever paths and names are given and wherever links
  -- lead, if the folder that this directory stands in is there and the new place itself is no
  -- link.
  pub operations-Outside :
      (lower : String → String) (path name : String) (tree : Tree)
      → is_some (node_at (parent root) tree) ≡ true
      → Outside root tree (list_files host base now lower slug path tree).1
        × Outside root tree (mkdir host base now slug path name tree).1
        × Outside root tree (rename host base now slug path name tree).1
        × Outside root tree (delete host base now slug path tree).1
  operations-Outside lower path name tree above = (
    list_files-Outside lower path tree,
    mkdir-Outside path name tree above,
    rename-Outside_all path name tree above,
    delete-Outside path tree,
  )
