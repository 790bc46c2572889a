-- ===== src/Backup/Bundle/RoundTrip.antt =====
-- What a bundle was built from comes back when it is extracted.
use fastapi_modular_template.Base.{
  String, ◌≡◌, refl, ap, inl, inr, Bool, false, ◌||◌, none, some, List, [], ◌∷◌, ◌++◌, arith, ◌==◌,
  eq_iff, eqb, Bool-cases, ◌⧺◌, cut_prefix, cut_prefix-append, Dict, lookup, insert-new,
  insert-last, lookup-last, ok,
}
use fastapi_modular_template.Archive.{data_id, Member, getmember, data_name, data_id-data_name}
use fastapi_modular_template.Backup.Bundle.{
  file_name, split_slash, file_id, Export, Formats, file_members, payload_members, entry,
  read_member, read_members, file_of, with_rows, with_file, Manifest, build_tarball, extract_backup,
  read_manifest, members_of,
}
use Prim.Native.Char.{Char, code}
use mathlib.Core.List
use mathlib.Core.Option
use text.Mathlib.TextLemmas.{nil-append, cons-append}

abbrev pub has_slash : String → Bool
has_slash String.[] = false
has_slash (String.◌∷◌ c s) = eqb (code c) b'/' || has_slash s

split_slash-append : (s t : String) → has_slash s ≡ false → split_slash (s ⧺ "/" ⧺ t) ≡ some (s, t)
unfolding split_slash
split_slash-append String.[] t h = rw (nil-append, cons-append, nil-append) refl
split_slash-append (String.◌∷◌ c s) t h = rw cons-append (ground (arith, split_slash-append s t))

file_id-file_name :
    (cid rel_path : String)
    → has_slash cid ≡ false
    → file_id (file_name cid rel_path) ≡ some (cid, rel_path)
unfolding file_id Option.bind
file_id-file_name cid rel_path h =
    rw (cut_prefix-append "files/" (cid ⧺ "/" ⧺ rel_path)) (split_slash-append cid rel_path h)

cut_prefix-head :
    (c d : Char) (p q t : String)
    → eqb (code c) (code d) ≡ false
    → cut_prefix (String.◌∷◌ c p) (String.◌∷◌ d q ⧺ t) ≡ none
unfolding cut_prefix
cut_prefix-head c d p q t h = rw cons-append (rw h refl)

pub data_id-file_name : (cid rel_path : String) → data_id (file_name cid rel_path) ≡ none
unfolding data_id Option.bind
data_id-file_name cid rel_path =
    rw (cut_prefix-head "d" "f" "ata/" "iles/" (cid ⧺ "/" ⧺ rel_path) refl) refl

-- A name that begins as the manifest's does not is not the manifest's.
not_manifest :
    (c : Char) (p t : String)
    → eqb b'm' (code c) ≡ false
    → (String.◌∷◌ c p ⧺ t == "manifest.json") ≡ false
unfolding cut_prefix
not_manifest c p t h = elim (Bool-cases (String.◌∷◌ c p ⧺ t == "manifest.json")) [
  | inr differs ↦ differs
  | inl same ↦
      absurd (cc (ap (cut_prefix "m") ((eq_iff _ _).0 same), cut_prefix-head "m" c "" p t h))
]

getmember-cons :
    (name : String) (m : Member) (ms : List Member)
    → getmember name ms ≡ none
    → (m.name == name) ≡ false
    → getmember name (m ∷ ms) ≡ none
unfolding getmember
getmember-cons name m ms h k = rw (h, getmember, k) refl

module _ {Row : Type 0} (formats : Formats Row) where
  getmember-file_members :
      (cid : String) (fs : List (String × String)) (ms : List Member)
      → getmember "manifest.json" ms ≡ none
      → getmember "manifest.json" (file_members formats cid fs ++ ms) ≡ none
  unfolding file_members
  getmember-file_members cid [] ms h = h
  getmember-file_members cid ((rel_path, raw) ∷ fs) ms h =
      getmember-cons "manifest.json" (file_of (file_name cid rel_path) raw)
        (file_members formats cid fs ++ ms) (getmember-file_members cid fs ms h)
        (not_manifest "f" "iles/" (cid ⧺ "/" ⧺ rel_path) refl)

  pub getmember-payload_members :
      (payloads : Dict (Export Row))
      → getmember "manifest.json" (payload_members formats payloads) ≡ none
  unfolding payload_members
  getmember-payload_members [] = unfold getmember in refl
  getmember-payload_members ((cid, e) ∷ more) =
      getmember-cons "manifest.json" (file_of (data_name cid) (formats.dumps e.rows))
        (file_members formats cid e.files ++ payload_members formats more)
        (getmember-file_members cid e.files (payload_members formats more)
          (getmember-payload_members more))
        (not_manifest "d" "ata/" (cid ⧺ ".json") refl)

  read_member-file :
      (cid rel_path raw : String) (found : Dict (Export Row))
      → has_slash cid ≡ false
      → read_member formats (file_of (file_name cid rel_path) raw) found
        ≡ ok (with_file formats cid rel_path raw found)
  unfolding read_member
  read_member-file cid rel_path raw found plain =
      rw (data_id-file_name cid rel_path, read_member, file_id-file_name cid rel_path plain) refl

  read_member-rows :
      (cid : String) (rows : List Row) (found : Dict (Export Row))
      → formats.loads (formats.dumps rows) ≡ ok rows
      → read_member formats (file_of (data_name cid) (formats.dumps rows)) found
        ≡ ok (with_rows formats cid rows found)
  unfolding read_member
  read_member-rows cid rows found json = rw (data_id-data_name cid, read_member, json) refl

  with_file-last :
      (cid rel_path raw : String) (e : Export Row) (found : Dict (Export Row))
      → lookup cid found ≡ none
      → with_file formats cid rel_path raw (found ++ (cid, e) ∷ [])
        ≡ found ++ (cid, record e { files = e.files ++ (rel_path, raw) ∷ [] }) ∷ []
  unfolding entry
  with_file-last cid rel_path raw e found new =
      rw (lookup-last cid e found new, entry)
        (insert-last cid (record e { files = e.files ++ (rel_path, raw) ∷ [] }) e found new)

  -- The files of the contributor that was read last are added to it.
  read_members-file_members :
      (cid : String) (rows : List Row) (before fs : List (String × String)) (ms : List Member)
      (found : Dict (Export Row))
      → has_slash cid ≡ false
      → lookup cid found ≡ none
      → read_members formats
          (file_members formats cid fs ++ ms)
          (found ++ (cid, record { rows = rows; files = before }) ∷ [])
        ≡ read_members formats ms
            (found ++ (cid, record { rows = rows; files = before ++ fs }) ∷ [])
  unfolding read_members file_members
  read_members-file_members cid rows before [] ms found plain new = rw (List.append-nil before) refl
  read_members-file_members cid rows before ((rel_path, raw) ∷ fs) ms found plain new =
      rw
        (
          read_member-file cid rel_path raw
              (found ++ (cid, record { rows = rows; files = before }) ∷ []) plain,
          with_file-last cid rel_path raw (record { rows = rows; files = before }) found new,
          ← List.append_assoc before ((rel_path, raw) ∷ []) fs,
        )
        (read_members-file_members cid rows (before ++ (rel_path, raw) ∷ []) fs ms found plain new)

  -- Every contributor is a new one, and its rows load again.
  abbrev pub IsReadable : Dict (Export Row) → Dict (Export Row) → Type 0
  IsReadable found [] = Unit
  IsReadable found ((cid, e) ∷ more) =
      (has_slash cid ≡ false)
      × (lookup cid found ≡ none)
      × (formats.loads (formats.dumps e.rows) ≡ ok e.rows)
      × IsReadable (found ++ (cid, e) ∷ []) more

  with_rows-new :
      (cid : String) (rows : List Row) (found : Dict (Export Row))
      → lookup cid found ≡ none
      → with_rows formats cid rows found ≡ found ++ (cid, record { rows = rows; files = [] }) ∷ []
  unfolding entry
  with_rows-new cid rows found new =
      rw (new, entry) (insert-new cid (record { rows = rows; files = [] }) found new)

  read_members-payload_members :
      (found payloads : Dict (Export Row))
      → IsReadable found payloads
      → read_members formats (payload_members formats payloads) found ≡ ok (found ++ payloads)
  unfolding read_members payload_members
  read_members-payload_members found [] h = rw (List.append-nil found) refl
  read_members-payload_members found ((cid, e) ∷ more) (plain, new, json, rest) =
      rw
        (
          read_member-rows cid e.rows found json,
          with_rows-new cid e.rows found new,
          read_members-file_members cid e.rows [] e.files (payload_members formats more) found plain
              new,
          read_members-payload_members (found ++ (cid, e) ∷ []) more rest,
          List.append_assoc found ((cid, e) ∷ []) more,
        )
        refl

  read_member-manifest :
      (content : String) (found : Dict (Export Row))
      → read_member formats (file_of "manifest.json" content) found ≡ ok found
  unfolding read_member data_id file_id Option.bind cut_prefix
  read_member-manifest content found = refl

  read_manifest-built :
      (content : String) (payloads : Dict (Export Row))
      → read_manifest formats (file_of "manifest.json" content ∷ payload_members formats payloads)
        ≡ formats.validate_manifest content
  unfolding read_manifest getmember
  read_manifest-built content payloads =
      rw (getmember-payload_members payloads, read_manifest, getmember) refl

  -- What a bundle needs of the libraries: that the archive unpacks again and that its manifest and
  -- the rows of each contributor load again; and of the contributors' identifiers: that they differ
  -- and have no slash.
  abbrev pub IsFaithful : Manifest → Dict (Export Row) → Type 0
  IsFaithful manifest payloads =
      (formats.unpack (formats.pack (members_of formats manifest payloads))
        ≡ ok (members_of formats manifest payloads))
      × (formats.validate_manifest (formats.dump_manifest manifest) ≡ ok manifest)
      × IsReadable [] payloads

  -- A bundle that is built from a manifest and payloads is extracted to them, if the archive, its
  -- manifest and the rows load again and the contributors' identifiers differ and have no slash.
  pub extract-build :
      (manifest : Manifest) (payloads : Dict (Export Row))
      → IsFaithful manifest payloads
      → extract_backup formats (build_tarball formats manifest payloads) ≡ ok (manifest, payloads)
  unfolding extract_backup build_tarball read_members members_of
  extract-build manifest payloads (tar, json, readable) =
      let content = formats.dump_manifest manifest in
      rw
        (
          tar,
          read_manifest-built content payloads,
          json,
          read_member-manifest content [],
          read_members-payload_members [] payloads readable,
        )
        refl
