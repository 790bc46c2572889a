-- ===== src/Sync/Apply.antt =====
-- Applying a bundle's rows: `_filter_rows_by_origin`, `_apply_contributor_rows`, `_apply_bundle` and
-- `apply_inbound_bundle` of scottycore/services/sync/engine.py.
pub mod Counts
use fastapi_modular_template.Base.{
  ℕ, ◌+◌, ◌-◌, String, Bool, true, not, ◌&&◌, Option, none, some, List, [], ◌∷◌, ◌==◌,
  if◌then◌else◌, is_some, length, filter, elem, Dict, lookup, Result, ok, err,
}
use fastapi_modular_template.Sync.Lww.{Datetime, lww_remote_wins}
use fastapi_modular_template.Sync.Rows.{
  Row, RowOrigin, parse_ts, get_row_origin, upsert_row_origin, Conflict, create_conflict,
}

-- What the engine calls of a backup contributor over a store `S`: `get_row` may be missing, both
-- may raise.
pub record Contributor (S : Type 0) : Type 0 where
  pub get_row : Option (String → S → Result (Option Row))
  pub restore : Option String → Row → S → Result ℕ × S

-- The store of the contributors, and the tables of the engine.
pub record Tables (S : Type 0) : Type 0 where
  pub store : S
  pub origins : List RowOrigin
  pub conflicts : List Conflict

pub data Verdict : Type 0 where
  applied skipped conflicted : Verdict

pub record Tally : Type 0 where
  pub rows_applied : ℕ
  pub rows_skipped : ℕ
  pub conflicts_created : ℕ

abbrev pub no_rows : Tally
no_rows = record { rows_applied = 0; rows_skipped = 0; conflicts_created = 0 }

abbrev pub count_verdict : Verdict → Tally → Tally
count_verdict applied t = record t { rows_applied = t.rows_applied + 1 }
count_verdict skipped t = record t { rows_skipped = t.rows_skipped + 1 }
count_verdict conflicted t = record t { conflicts_created = t.conflicts_created + 1 }

abbrev pub add_tally : Tally → Tally → Tally
add_tally a b = record {
  rows_applied = a.rows_applied + b.rows_applied;
  rows_skipped = a.rows_skipped + b.rows_skipped;
  conflicts_created = a.conflicts_created + b.conflicts_created;
}

abbrev pub total : Tally → ℕ
total t = t.rows_applied + t.rows_skipped + t.conflicts_created

-- `origin_node_id or "unknown"`
abbrev pub or_unknown : Option String → String
or_unknown none = "unknown"
or_unknown (some origin) = if origin == "" then "unknown" else origin

-- `origin is None or origin.origin_node_id not in exclude_origins`
abbrev keeps_origin : List String → Option RowOrigin → Bool
keeps_origin exclude none = true
keeps_origin exclude (some origin) = not (elem origin.origin_node_id exclude)

-- Drop the rows whose recorded origin is excluded.
unfoldable pub filter_rows_by_origin : List RowOrigin → List Row → String → List String → List Row
filter_rows_by_origin origins rows contributor_id [] = rows
filter_rows_by_origin origins rows contributor_id (x ∷ xs) =
    filter
      (λ row.
        if row.id == ""
        then true
        else keeps_origin (x ∷ xs) (get_row_origin origins contributor_id row.id))
      rows

-- `_parse_ts(local_row.get("updated_at")) if local_row else None`; `fromisoformat` is
-- `datetime.fromisoformat`, `none` where it raises ValueError.
abbrev pub local_ts : (String → Option Datetime) → Option Row → Option Datetime
local_ts fromisoformat none = none
local_ts fromisoformat (some r) = parse_ts fromisoformat r.updated_at

module _ {S : Type 0} where
  unfoldable pub local_version : Contributor S → Row → S → Result (Option Row)
  local_version c row s =
      if row.id == "" then ok none else elim c.get_row [ none ↦ ok none | some get ↦ get row.id s ]

  -- The row is written and its origin recorded; a raise of `restore` skips it.
  unfoldable pub write_row : Contributor S → String → Row → String → Tables S → Verdict × Tables S
  write_row c contributor_id row origin_node_id t =
      let (r, s') = c.restore row.tenant_id row t.store in
      elim r [
        | ok n ↦ (
          applied,
          record t {
            store = s';
            origins = upsert_row_origin t.origins contributor_id row.id origin_node_id;
          },
        )
        | err e ↦ (skipped, record t { store = s' })
      ]

  unfoldable pub keep_local : String → String → Row → Option Row → Tables S → Verdict × Tables S
  keep_local contributor_id peer_id row local_row t = (
    conflicted,
    record t {
      conflicts = create_conflict t.conflicts (record {
        peer_id = peer_id;
        tenant_id = row.tenant_id;
        resource_type = contributor_id;
        resource_id = row.id;
        local_payload = local_row;
        remote_payload = row;
        resolution = "lww_local_kept";
      });
    },
  )

module _ {S : Type 0} (fromisoformat : String → Option Datetime) (local_node_id : String) where
  -- One round of the loop of `_apply_contributor_rows`; a raise is caught and skips the row.
  unfoldable pub apply_row :
      Contributor S → String → String → String → Row → Tables S → Verdict × Tables S
  apply_row c contributor_id peer_id origin_node_id row t = elim (local_version c row t.store) [
    | err e ↦ (skipped, t)
    | ok local_row ↦
        elim (lww_remote_wins (parse_ts fromisoformat row.updated_at)
          (local_ts fromisoformat local_row) origin_node_id local_node_id) [
            | err e ↦ (skipped, t)
            | ok wins ↦
                if not wins
                  && is_some (local_ts fromisoformat local_row)
                  && is_some (parse_ts fromisoformat row.updated_at)
                then keep_local contributor_id peer_id row local_row t
                else write_row c contributor_id row origin_node_id t
          ]
  ]

  unfoldable pub apply_rows_from :
      Contributor S → String → String → String → List Row → Tally → Tables S → Tally × Tables S
  apply_rows_from c contributor_id peer_id origin_node_id [] n t = (n, t)
  apply_rows_from c contributor_id peer_id origin_node_id (row ∷ rows) n t =
      let (v, t') = apply_row c contributor_id peer_id origin_node_id row t in
      apply_rows_from c contributor_id peer_id origin_node_id rows (count_verdict v n) t'

  unfoldable pub apply_contributor_rows :
      Contributor S → String → String → String → List Row → Tables S → Tally × Tables S
  apply_contributor_rows c contributor_id peer_id origin_node_id rows t =
      apply_rows_from c contributor_id peer_id origin_node_id rows no_rows t

  -- One contributor of the bundle: what the origin filter drops counts as skipped.
  unfoldable pub apply_contributor :
      Contributor S → String → String → String → List Row → Tables S → Tally × Tables S
  apply_contributor c contributor_id peer_id origin_node_id rows t =
      let kept = filter_rows_by_origin t.origins rows contributor_id (local_node_id ∷ []) in
      let (n, t') = apply_contributor_rows c contributor_id peer_id origin_node_id kept t in
      (record n { rows_skipped = n.rows_skipped + (length rows - length kept) }, t')

  -- The loop of `_apply_bundle` over the bundle's contributors.
  unfoldable pub apply_contributors :
      Dict (Contributor S) → String → String → Dict (List Row) → Tally → Tables S → Tally × Tables S
  apply_contributors registered peer_id origin_node_id [] n t = (n, t)
  apply_contributors registered peer_id origin_node_id ((cid, rows) ∷ more) n t =
      elim (lookup cid registered) [
        | none ↦ apply_contributors registered peer_id origin_node_id more n t
        | some c ↦
            let (m, t') = apply_contributor c cid peer_id origin_node_id rows t in
            apply_contributors registered peer_id origin_node_id more (add_tally n m) t'
      ]
