-- ===== src/Backup/Bundle.antt =====
-- Bundles: `_build_tarball` and `_extract_bundle` of scottycore/services/backup/service.py, with
-- `ContributorExport` and `BackupManifest` of scottycore/services/backup/schemas.py. Bytes are texts.
pub mod RoundTrip
pub mod Exchange
use fastapi_modular_template.Base.{
  ℕ, String, Option, none, some, List, [], ◌∷◌, ◌++◌, eqb, if◌then◌else◌, ◌⧺◌, cut_prefix, Dict,
  lookup, insert, Result, ◌>>=◌, value_error, other_error, ok, err,
}
use fastapi_modular_template.Archive.{Member, getmember, data_id, data_name}
use Prim.Native.Char.{code}
use Prim.Native.String
use mathlib.Core.Option

pub data BundleScope : Type 0 where
  platform tenant : BundleScope

pub record Entry : Type 0 where
  pub id : String
  pub rows : ℕ
  pub files : ℕ

pub record Manifest : Type 0 where
  pub schema_version : ℕ
  pub scope : BundleScope
  pub tenant_slug : Option String
  pub timestamp : ℕ
  pub app_name : String
  pub app_version : String
  pub contributors : List Entry

-- The rows of a contributor, and its files by relative path.
pub record Export (Row : Type 0) : Type 0 where
  pub rows : List Row
  pub files : List (String × String)

-- tarfile, JSON and pydantic; reading may raise.
pub record Formats (Row : Type 0) : Type 0 where
  pub pack : List Member → String
  pub unpack : String → Result (List Member)
  pub dumps : List Row → String
  pub loads : String → Result (List Row)
  pub dump_manifest : Manifest → String
  pub validate_manifest : String → Result Manifest

abbrev pub file_of : String → String → Member
file_of name raw = record { name = name; content = some raw }

abbrev pub file_name : String → String → String
file_name cid rel_path = "files/" ⧺ cid ⧺ "/" ⧺ rel_path

-- What precedes the first slash of a text, and what follows it.
unfoldable pub split_slash : String → Option (String × String)
split_slash String.[] = none
split_slash (String.◌∷◌ c s) =
    if eqb (code c) b'/'
    then some ("", s)
    else Option.map (λ (p : String × String). (String.◌∷◌ c p.0, p.1)) (split_slash s)

-- `name.split("/", 2)` of a `files/<contributor>/<path>`
unfoldable pub file_id : String → Option (String × String)
file_id name = Option.bind (cut_prefix "files/" name) split_slash

module _ {Row : Type 0} (formats : Formats Row) where
  unfoldable pub file_members : String → List (String × String) → List Member
  file_members cid [] = []
  file_members cid ((rel_path, raw) ∷ more) =
      file_of (file_name cid rel_path) raw ∷ file_members cid more

  unfoldable pub payload_members : Dict (Export Row) → List Member
  payload_members [] = []
  payload_members ((cid, e) ∷ more) =
      file_of (data_name cid) (formats.dumps e.rows) ∷ file_members cid e.files
      ++ payload_members more

  -- The members, in the order in which they are added.
  unfoldable pub members_of : Manifest → Dict (Export Row) → List Member
  members_of manifest payloads =
      file_of "manifest.json" (formats.dump_manifest manifest) ∷ payload_members payloads

  unfoldable pub build_tarball : Manifest → Dict (Export Row) → String
  build_tarball manifest payloads = formats.pack (members_of manifest payloads)

  -- `contributor_data.setdefault(cid, {"rows": [], "files": []})`
  unfoldable pub entry : String → Dict (Export Row) → Export Row
  entry cid found = elim (lookup cid found) [ none ↦ record { rows = []; files = [] } | some e ↦ e ]

  abbrev pub with_rows : String → List Row → Dict (Export Row) → Dict (Export Row)
  with_rows cid rows found = insert cid (record (entry cid found) { rows = rows }) found

  abbrev pub with_file : String → String → String → Dict (Export Row) → Dict (Export Row)
  with_file cid rel_path raw found =
      insert cid
        (record (entry cid found) { files = (entry cid found).files ++ (rel_path, raw) ∷ [] }) found

  -- One member of the archive.
  unfoldable pub read_member : Member → Dict (Export Row) → Result (Dict (Export Row))
  read_member m found = elim (data_id m.name) [
    | some cid ↦ elim m.content [
      | none ↦ ok found
      | some content ↦ formats.loads content >>= (λ rows. ok (with_rows cid rows found))
    ]
    | none ↦ elim (file_id m.name) [
      | none ↦ ok found
      | some (cid, rel_path) ↦ elim m.content [
        | none ↦ ok found
        | some raw ↦ ok (with_file cid rel_path raw found)
      ]
    ]
  ]

  unfoldable pub read_members : List Member → Dict (Export Row) → Result (Dict (Export Row))
  read_members [] found = ok found
  read_members (m ∷ ms) found = read_member m found >>= read_members ms

  unfoldable pub read_manifest : List Member → Result Manifest
  read_manifest ms = elim (getmember "manifest.json" ms) [
    | none ↦ err (other_error "KeyError")
    | some m ↦ elim m.content [
      | none ↦ err (value_error "Invalid backup: missing manifest.json")
      | some content ↦ formats.validate_manifest content
    ]
  ]

  unfoldable pub extract_backup : String → Result (Manifest × Dict (Export Row))
  extract_backup bundle_bytes = formats.unpack bundle_bytes >>= (λ ms.
      read_manifest ms >>= (λ manifest. read_members ms [] >>= (λ found. ok (manifest, found))))
