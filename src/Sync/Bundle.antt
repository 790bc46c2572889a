-- ===== src/Sync/Bundle.antt =====
-- `_extract_bundle`, `_apply_bundle` and `apply_inbound_bundle` of
-- scottycore/services/sync/engine.py.
use fastapi_modular_template.Base.{
  String, Option, none, some, List, [], ◌∷◌, ◌==◌, if◌then◌else◌, Dict, insert, Result, ◌>>=◌,
  value_error, other_error, ok, err,
}
use fastapi_modular_template.Archive.{Member, getmember, data_id}
use fastapi_modular_template.Sync.Lww.{Datetime}
use fastapi_modular_template.Sync.Rows.{Row}
use fastapi_modular_template.Sync.Apply.{
  Contributor, Tables, Tally, no_rows, apply_contributors, or_unknown,
}

-- The libraries that the parser calls: `tarfile`, `json.loads` on a rows file, and pydantic's
-- `BackupManifest.model_validate_json`. Each may raise.
pub record Codec : Type 0 where
  pub open_tar : String → Result (List Member)
  pub loads_rows : String → Result (List Row)
  pub validate_manifest : String → Result (Unit {0})

-- The loop over the members.
unfoldable pub extract_members :
    (String → Result (List Row)) → List Member → Dict (List Row) → Result (Dict (List Row))
extract_members loads [] found = ok found
extract_members loads (m ∷ ms) found = elim (data_id m.name) [
  | none ↦ extract_members loads ms found
  | some cid ↦ elim m.content [
    | none ↦ extract_members loads ms found
    | some content ↦ do rows ← loads content; extract_members loads ms (insert cid rows found)
  ]
]

unfoldable pub extract_manifest : Codec → List Member → Result (Unit {0})
extract_manifest codec ms = elim (getmember "manifest.json" ms) [
  | none ↦ err (other_error "KeyError")
  | some m ↦ elim m.content [
    | none ↦ err (value_error "Missing manifest.json in bundle")
    | some content ↦ codec.validate_manifest content
  ]
]

unfoldable pub extract_bundle : Codec → String → Result (Dict (List Row))
extract_bundle codec bundle_bytes = do
  ms ← codec.open_tar bundle_bytes
  manifest ← extract_manifest codec ms
  extract_members codec.loads_rows ms []

-- This node: its identifier, its contributors and the libraries that it calls.
pub record Node (S : Type 0) : Type 0 where
  pub local_node_id : String
  pub contributors : Dict (Contributor S)
  pub fromisoformat : String → Option Datetime
  pub codec : Codec

module _ {S : Type 0} (node : Node S) where
  unfoldable pub apply_bundle : String → String → Option String → Tables S → Tally × Tables S
  apply_bundle bundle_bytes peer_id origin_node_id t =
      if bundle_bytes == "" then (no_rows, t) else elim (extract_bundle node.codec bundle_bytes) [
        | err e ↦ (no_rows, t)
        | ok contributor_data ↦
            apply_contributors node.fromisoformat node.local_node_id node.contributors peer_id
              (or_unknown origin_node_id) contributor_data no_rows t
      ]

  unfoldable pub apply_inbound_bundle : String → String → String → Tables S → Tally × Tables S
  apply_inbound_bundle bundle_bytes origin_node_id peer_id t =
      apply_bundle bundle_bytes peer_id (some origin_node_id) t
