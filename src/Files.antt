-- ===== src/Files.antt =====
-- The files service of scottycore/services/files/service.py: the cleaning of names and the places
-- that they lead to. The folders of the host are a table of paths; a path is its names, the last
-- one first.
pub mod Service
pub mod Names
pub mod Confined
use fastapi_modular_template.Base.{
  ℕ, String, Bool, true, false, ◌||◌, Option, none, some, List, [], ◌∷◌, ◌==◌, eqb, if◌then◌else◌,
}
use Prim.Native.String
use Prim.Native.Char.{Char, code}
use fastapi_modular_template.Scheduler.Disk.{FilePath, parts, is_within}

-- Python's `\w` and `\s`, and the resolution of the names joined to a path by the host, whose links
-- it follows
pub record Host : Type 0 where
  pub word : Char → Bool
  pub space : Char → Bool
  pub realpath : FilePath → List String → FilePath

abbrev pub is_safe : Host → Char → Bool
is_safe host c = host.word c || host.space c || eqb (code c) b'-' || eqb (code c) b'.'

-- `_SAFE_CHARS_RE.sub("", name)`
unfoldable pub safe_chars : Host → String → String
safe_chars host String.[] = ""
safe_chars host (String.◌∷◌ c s) =
    let rest = safe_chars host s in if is_safe host c then String.◌∷◌ c rest else rest

-- `s.lstrip(chars)` and `s.rstrip(chars)`
unfoldable pub lstrip : (Char → Bool) → String → String
lstrip p String.[] = ""
lstrip p (String.◌∷◌ c s) = let rest = lstrip p s in if p c then rest else String.◌∷◌ c s

unfoldable pub rstrip : (Char → Bool) → String → String
rstrip p String.[] = ""
rstrip p (String.◌∷◌ c s) =
    let rest = rstrip p s in
    if rest == "" then (if p c then "" else String.◌∷◌ c "") else String.◌∷◌ c rest

-- `os.path.basename(name)`
abbrev pub last_of : List String → String
last_of [] = ""
last_of (p ∷ []) = p
last_of (p ∷ q ∷ ps) = last_of (q ∷ ps)

abbrev pub is_dot_or_blank : Char → Bool
is_dot_or_blank c = eqb (code c) b'.' || eqb (code c) b' '

unfoldable pub secure_filename : Host → String → String
secure_filename host name =
    rstrip host.space
      (lstrip host.space (lstrip is_dot_or_blank (safe_chars host (last_of (parts name)))))

-- The components of a path that something is left of
unfoldable pub safe_components : Host → List String → List String
safe_components host [] = []
safe_components host (p ∷ ps) =
    let rest = safe_components host ps in
    let sanitized = secure_filename host p in if sanitized == "" then rest else sanitized ∷ rest

module _ (host : Host) (base : FilePath) where
  -- The directory of a tenant, if something is left of the slug
  unfoldable pub tenant_root : String → Option FilePath
  tenant_root slug =
      let safe_slug = secure_filename host slug in
      if safe_slug == "" then none else some (host.realpath base (safe_slug ∷ []))

  abbrev pub joined : FilePath → List String → FilePath
  joined root [] = root
  joined root (c ∷ cs) = host.realpath root (c ∷ cs)

  unfoldable pub safe_resolve : String → String → Option FilePath
  safe_resolve slug rel_path = elim (tenant_root slug) [
    | none ↦ none
    | some root ↦
        let target = joined root (safe_components host (parts rel_path)) in
        if is_within root target then some target else none
  ]
