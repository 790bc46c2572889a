-- ===== src/Archive.antt =====
-- The names of a bundle's members, as scottycore/services/backup/service.py writes and reads them:
-- `data/<contributor>.json`, `files/<contributor>/<path>` and `manifest.json`.
use fastapi_modular_template.Base.{
  String, ◌≡◌, Option, none, some, List, [], ◌∷◌, ◌==◌, if◌then◌else◌, ◌⧺◌, cut_prefix, cut_suffix,
  cut_prefix-append, cut_suffix-append,
}
use mathlib.Core.Option

-- A member of a tar file; `extractfile` gives no content for what is not a regular file.
pub record Member : Type 0 where
  pub name : String
  pub content : Option String

-- `tf.getmember(name)`: the last one of that name.
unfoldable pub getmember : String → List Member → Option Member
getmember name [] = none
getmember name (m ∷ ms) = elim (getmember name ms) [
  | some found ↦ some found
  | none ↦ if m.name == name then some m else none
]

-- The contributor of a `data/<contributor>.json`.
unfoldable pub data_id : String → Option String
data_id name = Option.bind (cut_prefix "data/" name) (cut_suffix ".json")

abbrev pub data_name : String → String
data_name cid = "data/" ⧺ cid ⧺ ".json"

-- The name of a contributor's member in a bundle is read back as that contributor's identifier.
pub data_id-data_name : (cid : String) → data_id (data_name cid) ≡ some cid
unfolding data_id Option.bind cut_suffix
data_id-data_name cid =
    rw (cut_prefix-append "data/" (cid ⧺ ".json")) (cut_suffix-append ".json" cid)
