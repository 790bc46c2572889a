-- ===== src/Backup/Bundle/Exchange.antt =====
-- The bundles of the backup service as the synchronisation engine of another node reads them.
use fastapi_modular_template.Base.{
  String, ◌≡◌, refl, none, List, [], ◌∷◌, ◌++◌, cut_prefix, Dict, lookup, insert, insert-new, ok,
}
use fastapi_modular_template.Archive.{Member, getmember, data_id, data_name, data_id-data_name}
use fastapi_modular_template.Sync.Rows.{Row}
use fastapi_modular_template.Sync.Bundle.{Codec, extract_members, extract_manifest, extract_bundle}
use fastapi_modular_template.Backup.Bundle.{
  Formats, Export, Manifest, file_of, file_members, payload_members, members_of, build_tarball,
}
use fastapi_modular_template.Backup.Bundle.RoundTrip.{data_id-file_name, getmember-payload_members}
use mathlib.Core.List
use mathlib.Core.Option

-- The rows of each contributor, without the files.
abbrev pub rows_of : Dict (Export Row) → Dict (List Row)
rows_of [] = []
rows_of ((cid, e) ∷ more) = (cid, e.rows) ∷ rows_of more

module _ (formats : Formats Row) (codec : Codec) where
  -- The contributors' identifiers differ, and the engine reads the rows that the service writes.
  abbrev pub IsLegible : Dict (List Row) → Dict (Export Row) → Type 0
  IsLegible found [] = Unit
  IsLegible found ((cid, e) ∷ more) =
      (lookup cid found ≡ none)
      × (codec.loads_rows (formats.dumps e.rows) ≡ ok e.rows)
      × IsLegible (found ++ (cid, e.rows) ∷ []) more

  extract_members-file_members :
      (cid : String) (fs : List (String × String)) (ms : List Member) (found : Dict (List Row))
      → extract_members codec.loads_rows (file_members formats cid fs ++ ms) found
        ≡ extract_members codec.loads_rows ms found
  unfolding extract_members file_members
  extract_members-file_members cid [] ms found = refl
  extract_members-file_members cid ((rel_path, raw) ∷ fs) ms found =
      rw (data_id-file_name cid rel_path, extract_members)
        (extract_members-file_members cid fs ms found)

  extract_members-data :
      (cid : String) (rows : List Row) (ms : List Member) (found : Dict (List Row))
      → codec.loads_rows (formats.dumps rows) ≡ ok rows
      → extract_members codec.loads_rows (file_of (data_name cid) (formats.dumps rows) ∷ ms) found
        ≡ extract_members codec.loads_rows ms (insert cid rows found)
  unfolding extract_members
  extract_members-data cid rows ms found json =
      rw (data_id-data_name cid, extract_members, json) refl

  extract_members-payload_members :
      (found : Dict (List Row)) (payloads : Dict (Export Row))
      → IsLegible found payloads
      → extract_members codec.loads_rows (payload_members formats payloads) found
        ≡ ok (found ++ rows_of payloads)
  unfolding payload_members
  extract_members-payload_members found [] h =
      unfold extract_members in rw (List.append-nil found) refl
  extract_members-payload_members found ((cid, e) ∷ more) (new, json, rest) =
      rw
        (
          extract_members-data cid e.rows
              (file_members formats cid e.files ++ payload_members formats more) found json,
          insert-new cid e.rows found new,
          extract_members-file_members cid e.files (payload_members formats more)
              (found ++ (cid, e.rows) ∷ []),
          extract_members-payload_members (found ++ (cid, e.rows) ∷ []) more rest,
          List.append_assoc found ((cid, e.rows) ∷ []) (rows_of more),
        )
        refl

  extract_manifest-built :
      (content : String) (payloads : Dict (Export Row))
      → extract_manifest codec (file_of "manifest.json" content ∷ payload_members formats payloads)
        ≡ codec.validate_manifest content
  unfolding extract_manifest getmember
  extract_manifest-built content payloads =
      rw (getmember-payload_members formats payloads, extract_manifest, getmember) refl

  extract_members-manifest :
      (content : String) (ms : List Member) (found : Dict (List Row))
      → extract_members codec.loads_rows (file_of "manifest.json" content ∷ ms) found
        ≡ extract_members codec.loads_rows ms found
  unfolding extract_members data_id cut_prefix Option.bind
  extract_members-manifest content ms found = refl

  -- The synchronisation engine extracts from a bundle that the backup service builds exactly the
  -- rows of each contributor, in its order, if the archive unpacks again, its manifest is valid to
  -- the engine, the engine loads the rows that the service wrote and the contributors' identifiers
  -- differ.
  pub extract_bundle-build :
      (manifest : Manifest) (payloads : Dict (Export Row))
      → codec.open_tar (formats.pack (members_of formats manifest payloads))
        ≡ ok (members_of formats manifest payloads)
      → codec.validate_manifest (formats.dump_manifest manifest) ≡ ok tt
      → IsLegible [] payloads
      → extract_bundle codec (build_tarball formats manifest payloads) ≡ ok (rows_of payloads)
  unfolding extract_bundle build_tarball members_of
  extract_bundle-build manifest payloads tar json legible =
      let content = formats.dump_manifest manifest in
      rw
        (
          tar,
          extract_manifest-built content payloads,
          json,
          extract_members-manifest content (payload_members formats payloads) [],
          extract_members-payload_members [] payloads legible,
        )
        refl
