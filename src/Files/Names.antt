-- ===== src/Files/Names.antt =====
-- The names that cleaning leaves: a blank that is no space shields the dots behind it.
use fastapi_modular_template.Base.{
  ℕ, String, ◌≡◌, refl, ap, true, false, ◌||◌, some, List, [], ◌∷◌, arith, ◌==◌, eqb, ok,
  Bool-cases, inl, inr, length,
}
use Prim.Native.Char.{Char, code}
use fastapi_modular_template.Scheduler.Disk.{FilePath, parts, parent, walk, is_within, same_path}
use fastapi_modular_template.Scheduler.Disk.Confined.{same_path-eq}
use fastapi_modular_template.Files.Confined.{is_within_refl}
use fastapi_modular_template.Files.{
  Host, is_safe, safe_chars, lstrip, rstrip, secure_filename, safe_components, is_dot_or_blank,
  tenant_root, safe_resolve,
}
use fastapi_modular_template.Files.Service.{
  folder, file, Tree, node_at, without, ensure_tenant_dir, delete, delete_at,
}

longer_path : (name : String) (path : FilePath) → same_path (name ∷ path) path ≡ false
longer_path name path = elim (Bool-cases (same_path (name ∷ path) path)) [
  | inl same ↦ absurd (omega (arith, ap length (same_path-eq (name ∷ path) path same)))
  | inr differs ↦ differs
]

below_itself : (name : String) (path : FilePath) → is_within path (name ∷ path) ≡ true
unfolding is_within
below_itself name path = ground (arith, is_within_refl path)

module _ (host : Host) (c : Char) (blank : host.space c ≡ true)
    (no_mark : (eqb (code c) b'.' || eqb (code c) b' ' || eqb (code c) b'/') ≡ false)
    (dot : host.space "." ≡ false) where
  one_part : parts (String.◌∷◌ c "..") ≡ String.◌∷◌ c ".." ∷ []
  unfolding parts
  one_part = ground arith

  dot_safe : is_safe host "." ≡ true
  dot_safe = ground (arith, Bool-cases (host.word "."), dot)

  c_safe : is_safe host c ≡ true
  c_safe = ground (arith, Bool-cases (host.word c), blank)

  all_safe : safe_chars host (String.◌∷◌ c "..") ≡ String.◌∷◌ c ".."
  unfolding safe_chars
  all_safe = rw (c_safe, dot_safe) refl

  no_dots_first : lstrip is_dot_or_blank (String.◌∷◌ c "..") ≡ String.◌∷◌ c ".."
  unfolding lstrip
  no_dots_first = ground arith

  blank_first : lstrip host.space (String.◌∷◌ c "..") ≡ ".."
  unfolding lstrip
  blank_first = ground arith

  nothing_last : rstrip host.space ".." ≡ ".."
  unfolding rstrip
  nothing_last = rw dot refl

  dots_survive : secure_filename host (String.◌∷◌ c "..") ≡ ".."
  unfolding secure_filename
  dots_survive = rw (secure_filename, one_part, all_safe, no_dots_first, blank_first) nothing_last

  root_above :
      (base : FilePath)
      → ((path : FilePath) (names : List String) → host.realpath path names ≡ walk path names)
      → tenant_root host base (String.◌∷◌ c "..") ≡ some (parent base)
  unfolding tenant_root walk
  root_above base plain = rw (dots_survive, plain) refl

  -- A white space character that is neither a space nor a dot, with two dots behind it, given as
  -- the slug of a tenant, lets a deletion remove a file that stands beside the uploads directory,
  -- on a host without links, if cleaning leaves the file's name as it is.
  pub delete-outside :
      (base : FilePath) (now at size mtime : ℕ) (name : String) (tree : Tree)
      → ((path : FilePath) (names : List String) → host.realpath path names ≡ walk path names)
      → parts name ≡ name ∷ []
      → secure_filename host name ≡ name
      → (name == "" || name == "." || name == "..") ≡ false
      → node_at (parent base) tree ≡ some (folder at)
      → node_at (name ∷ parent base) tree ≡ some (file size mtime)
      → delete host base now (String.◌∷◌ c "..") name tree
        ≡ (ok tt, without (name ∷ parent base) tree)
  unfolding delete delete_at ensure_tenant_dir safe_resolve safe_components walk
  delete-outside base now at size mtime name tree plain single clean other above there =
      let top = root_above base plain in
      let components : safe_components host (parts name) ≡ name ∷ [] =
        rw single (ground (arith, clean, other)) in
      let walked : walk (parent base) (name ∷ []) ≡ name ∷ parent base = ground (arith, other) in
      let place : safe_resolve host base (String.◌∷◌ c "..") name ≡ some (name ∷ parent base) =
        ground (
          arith,
          top,
          components,
          plain (parent base) (name ∷ []),
          walked,
          below_itself name (parent base),
        ) in
      ground (arith, top, place, above, there, longer_path name (parent base))
