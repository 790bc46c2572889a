-- ===== src/Backup/Contributors/Crossing.antt =====
-- The restore of a tenant's settings looks neither at the scope nor at the owner of a row.
use fastapi_modular_template.Base.{
  ℕ, String, ◌≡◌, refl, Bool, true, Option, some, List, [], ◌∷◌, arith, lookup-insert, eq_refl, ok,
}
use fastapi_modular_template.Sync.Lww.{Datetime}
use fastapi_modular_template.Backup.Bundle.{tenant}
use fastapi_modular_template.Backup.Contributors.{
  Record, Column, Model, Database, rows_of, key_of, get, overlay, merge_row, row_to_dict,
  hydrate_row, upsert_rows, restore_one, restore_settings,
}
use fastapi_modular_template.Backup.Contributors.Hydrated.{
  ReadsBack, has_column, fits, project, lookup-row_to_dict, lookup-overlay-project, hydrate-project,
}
use fastapi_modular_template.Backup.Contributors.Upserted.{AgreesWith, is_key, old_or, get-merge}

module _ (isoformat : Datetime → String) (fromisoformat : String → Option Datetime)
    (reads : ReadsBack isoformat fromisoformat) where
  one_hydrated :
      (cs : List Column) (row : Record)
      → fits cs row ≡ true
      → hydrate_row isoformat fromisoformat cs (row_to_dict isoformat fromisoformat cs row)
        ≡ ok (project cs row)
  one_hydrated cs row fit =
      hydrate-project isoformat fromisoformat reads cs row
        (row_to_dict isoformat fromisoformat cs row) fit
        (λ name held. rw (lookup-row_to_dict isoformat fromisoformat reads cs row name, held) refl)

  -- A restore at tenant scope of a single settings row that succeeds stores that row, whatever
  -- scope and owner it names, if the row fits its columns, has a key and isoformat is read back.
  pub tenant_restore-writes :
      (accepts : Database → Bool) (setting : Model) (tenant_id : String) (db : Database)
      (row : Record) (n : ℕ)
      → has_column "id" setting.columns ≡ true
      → is_key (key_of row) ≡ true
      → fits setting.columns row ≡ true
      → (restore_settings isoformat fromisoformat accepts setting tenant
          (some tenant_id)
          (row_to_dict isoformat fromisoformat setting.columns row ∷ [])
          db).0
        ≡ ok n
      → AgreesWith setting.columns row (
          get (key_of row) (
            rows_of setting
              (restore_settings isoformat fromisoformat accepts setting tenant
                (some tenant_id)
                (row_to_dict isoformat fromisoformat setting.columns row ∷ [])
                db).1))
  unfolding restore_settings restore_one upsert_rows
  tenant_restore-writes accepts setting tenant_id db row n keyed key fit done =
      let table = rows_of setting db in
      let old = old_or setting.defaults (get (key_of row) table) in
      let merged = merge_row setting.defaults (project setting.columns row) table in
      (
        overlay old (project setting.columns row),
        ground (
          arith,
          one_hydrated setting.columns row fit,
          lookup-insert setting.table setting.table merged db,
          eq_refl setting.table,
          get-merge setting.columns keyed setting.defaults row (key_of row) table key,
        ),
        (λ name held. rw (lookup-overlay-project setting.columns row old name, held) refl),
      )
