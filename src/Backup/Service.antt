-- ===== src/Backup/Service.antt =====
-- `_run_export`, `_run_delta_export` and `restore_bundle` of scottycore/services/backup/service.py.
-- The audit log is left out.
pub mod Expected
pub mod Restored
use fastapi_modular_template.Base.{
  ℕ, ◌+◌, String, Bool, true, false, not, Option, none, some, List, [], ◌∷◌, ◌++◌, ◌==◌, ltb,
  if◌then◌else◌, length, any, ◌⧺◌, truthy, Dict, lookup, Error, Result, ◌>>=◌, ok, err,
}
use fastapi_modular_template.Backup.Bundle.{
  BundleScope, platform, tenant, Manifest, Entry, Export, Formats, build_tarball, extract_backup,
}

-- What the service calls of a contributor over a store `S`; each may raise. `export_delta` may be
-- missing.
pub record BackupContributor (Row S : Type 0) : Type 0 where
  pub scopes : List BundleScope
  pub export : BundleScope → Option String → S → Result (Export Row)
  pub export_delta :
      Option (BundleScope → Option String → Option ℕ → List String → S → Result (Export Row))
  pub restore : BundleScope → Option String → List Row → List (String × String) → S → Result ℕ × S

-- The file formats, `row.get("slug")` and `str(row.get("id"))` of a row, `str(exc)`, the error of an
-- unsupported schema version, and the application's name and version.
pub record Platform (Row : Type 0) : Type 0 where
  pub formats : Formats Row
  pub slug_of : Row → Option String
  pub id_text : Row → String
  pub message : Error → String
  pub unsupported : ℕ → Error
  pub app_name : String
  pub app_version : String

pub record RestoreSummary : Type 0 where
  pub contributors_restored : List String
  pub total_rows_upserted : ℕ
  pub warnings : List String

abbrev pub supported_schema_version : ℕ
supported_schema_version = 1

abbrev pub same_scope : BundleScope → BundleScope → Bool
same_scope platform platform = true
same_scope tenant tenant = true
same_scope _ _ = false

-- `scope in c.scopes`
abbrev pub takes_part : {Row S : Type 0} → BundleScope → BackupContributor Row S → Bool
takes_part scope c = any (same_scope scope) c.scopes

abbrev pub nothing_restored : RestoreSummary
nothing_restored = record { contributors_restored = []; total_rows_upserted = 0; warnings = [] }

module _ {Row : Type 0} where
  -- The manifest's entries for what was exported.
  unfoldable pub entries : Dict (Export Row) → List Entry
  entries [] = []
  entries ((cid, e) ∷ more) =
      record { id = cid; rows = length e.rows; files = length e.files } ∷ entries more

  module _ (env : Platform Row) where
    abbrev pub manifest_of : BundleScope → Option String → ℕ → Dict (Export Row) → Manifest
    manifest_of scope tenant_slug now payloads = record {
      schema_version = supported_schema_version;
      scope = scope;
      tenant_slug = tenant_slug;
      timestamp = now;
      app_name = env.app_name;
      app_version = env.app_version;
      contributors = entries payloads;
    }

    -- The identifier in the row with that slug
    unfoldable pub tenant_row_id : String → List Row → Option String
    tenant_row_id slug [] = none
    tenant_row_id slug (row ∷ rows) = elim (env.slug_of row) [
      | none ↦ tenant_row_id slug rows
      | some s ↦
          let rest = tenant_row_id slug rows in if s == slug then some (env.id_text row) else rest
    ]

    unfoldable pub resolve_tenant_id : Manifest → Dict (Export Row) → Option String
    resolve_tenant_id m found = elim m.scope [
      | platform ↦ none
      | tenant ↦ elim (truthy m.tenant_slug) [
        | none ↦ none
        | some slug ↦ elim (lookup "tenants" found) [
          | none ↦ none
          | some e ↦ tenant_row_id slug e.rows
        ]
      ]
    ]

    -- What a contributor's restore adds to the summary.
    unfoldable pub note : String → Result ℕ → RestoreSummary → RestoreSummary
    note cid (ok n) summary = record summary {
      contributors_restored = summary.contributors_restored ++ cid ∷ [];
      total_rows_upserted = summary.total_rows_upserted + n;
    }
    note cid (err e) summary = record summary {
      warnings = summary.warnings ++ (cid ⧺ ": " ⧺ env.message e) ∷ [];
    }

module _ {Row S : Type 0} where
  -- The loop over the contributors; a raise ends it. `call` is the export of one of them.
  unfoldable pub collect :
      (BackupContributor Row S → Result (Export Row))
      → BundleScope
      → Dict (BackupContributor Row S)
      → Result (Dict (Export Row))
  collect call scope [] = ok []
  collect call scope ((cid, c) ∷ more) =
      if not (takes_part scope c)
      then collect call scope more
      else call c >>= (λ e. collect call scope more >>= (λ rest. ok ((cid, e) ∷ rest)))

  abbrev pub full_export :
      BundleScope → Option String → S → BackupContributor Row S → Result (Export Row)
  full_export scope tenant_id store c = c.export scope tenant_id store

  unfoldable pub delta_export :
      BundleScope
      → Option String
      → Option ℕ
      → List String
      → S
      → BackupContributor Row S
      → Result (Export Row)
  delta_export scope tenant_id since exclude_origins store c = elim c.export_delta [
    | none ↦ c.export scope tenant_id store
    | some delta ↦ delta scope tenant_id since exclude_origins store
  ]

  module _ (env : Platform Row) where
    unfoldable pub run_full_export :
        BundleScope
        → Option String
        → Option String
        → ℕ
        → Dict (BackupContributor Row S)
        → S
        → Result String
    run_full_export scope tenant_id tenant_slug now contributors store =
        collect (full_export scope tenant_id store) scope contributors >>= (λ payloads.
          ok (build_tarball env.formats (manifest_of env scope tenant_slug now payloads) payloads))

    unfoldable pub run_delta_export :
        BundleScope
        → Option String
        → Option String
        → Option ℕ
        → List String
        → ℕ
        → Dict (BackupContributor Row S)
        → S
        → Result String
    run_delta_export scope tenant_id tenant_slug since exclude_origins now contributors store =
        collect (delta_export scope tenant_id since exclude_origins store) scope contributors
        >>= (λ payloads.
            ok
              (build_tarball env.formats (manifest_of env scope tenant_slug now payloads) payloads))

    unfoldable pub restore_one :
        BundleScope
        → Option String
        → String
        → BackupContributor Row S
        → Dict (Export Row)
        → RestoreSummary × S
        → RestoreSummary × S
    restore_one scope tenant_id cid c found (summary, store) =
        if not (takes_part scope c) then (summary, store) else elim (lookup cid found) [
          | none ↦ (summary, store)
          | some e ↦
              let (r, store') = c.restore scope tenant_id e.rows e.files store in
              (note env cid r summary, store')
        ]

    -- In the order of registration.
    unfoldable pub restore_all :
        BundleScope
        → Option String
        → Dict (BackupContributor Row S)
        → Dict (Export Row)
        → RestoreSummary × S
        → RestoreSummary × S
    restore_all scope tenant_id [] found state = state
    restore_all scope tenant_id ((cid, c) ∷ more) found state =
        restore_all scope tenant_id more found (restore_one scope tenant_id cid c found state)

    unfoldable pub restore_bundle :
        Dict (BackupContributor Row S) → String → S → Result RestoreSummary × S
    restore_bundle contributors bundle_bytes store =
        elim (extract_backup env.formats bundle_bytes) [
          | err e ↦ (err e, store)
          | ok (m, found) ↦
              let (summary, store') =
                restore_all m.scope (resolve_tenant_id env m found) contributors found
                  (nothing_restored, store) in
              if ltb supported_schema_version m.schema_version
              then (err (env.unsupported m.schema_version), store)
              else (ok summary, store')
        ]
