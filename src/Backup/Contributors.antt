-- ===== src/Backup/Contributors.antt =====
-- The built-in contributors of scottycore/services/backup/contributors.py, over the rows of the
-- database. `isoformat` and `fromisoformat` are those of `datetime`; the constraints of the
-- database, which a commit checks, are a test of the tables.
pub mod Hydrated
pub mod Upserted
pub mod Crossing
use fastapi_modular_template.Base.{
  ℕ, suc, ◌+◌, String, Bool, true, false, ◌&&◌, Option, none, some, List, [], ◌∷◌, ◌++◌, map, ◌==◌,
  eqb, leb, if◌then◌else◌, filter, Dict, lookup, insert, remove, Result, value_error, other_error,
  ok, err,
}
use fastapi_modular_template.Sync.Lww.{Datetime}
use fastapi_modular_template.Sync.Rows.{replace_z}
use fastapi_modular_template.Backup.Bundle.{BundleScope, platform, tenant}

-- The value of a column, or of a key of a JSON object, which has no moments
pub data Cell : Type 0 where
  null : Cell
  word : String → Cell
  number : ℕ → Cell
  flag : Bool → Cell
  moment : Datetime → Cell

abbrev pub Record : Type 0
Record = Dict Cell

pub record Column : Type 0 where
  pub name : String
  pub is_datetime : Bool

-- A table's name, its columns, of which `id` is the primary key, and what an insertion puts into a
-- column that is not given
pub record Model : Type 0 where
  pub table : String
  pub columns : List Column
  pub defaults : Record

abbrev pub Database : Type 0
Database = Dict (List Record)

abbrev pub rows_or_none : Option (List Record) → List Record
rows_or_none none = []
rows_or_none (some rows) = rows

abbrev pub rows_of : Model → Database → List Record
rows_of model db = rows_or_none (lookup model.table db)

abbrev pub cell_or_null : Option Cell → Cell
cell_or_null none = null
cell_or_null (some c) = c

abbrev pub same_key : Cell → Cell → Bool
same_key (word a) (word b) = a == b
same_key (number m) (number n) = eqb m n
same_key _ _ = false

abbrev pub key_of : Record → Cell
key_of row = cell_or_null (lookup "id" row)

-- `session.get(Model, id)`
unfoldable pub get : Cell → List Record → Option Record
get key [] = none
get key (row ∷ rows) =
    let rest = get key rows in if same_key (key_of row) key then some row else rest

-- The columns that are given go over the others.
unfoldable pub overlay : Record → Record → Record
overlay old [] = old
overlay old ((name, c) ∷ given) = overlay (insert name c old) given

unfoldable pub merge_row : Record → Record → List Record → List Record
merge_row defaults given [] = overlay defaults given ∷ []
merge_row defaults given (row ∷ rows) =
    let rest = merge_row defaults given rows in
    if same_key (key_of row) (key_of given) then overlay row given ∷ rows else row ∷ rest

module _ (isoformat : Datetime → String) (fromisoformat : String → Option Datetime) where
  abbrev pub flat : Cell → Cell
  flat null = null
  flat (word s) = word s
  flat (number n) = number n
  flat (flag b) = flag b
  flat (moment t) = word (isoformat t)

  unfoldable pub row_to_dict : List Column → Record → Record
  row_to_dict [] row = []
  row_to_dict (c ∷ cs) row = (c.name, flat (cell_or_null (lookup c.name row))) ∷ row_to_dict cs row

  abbrev pub parse_cell : Bool → Cell → Result Cell
  parse_cell true (word s) = elim (fromisoformat (replace_z s)) [
    | none ↦ err (value_error "isoformat")
    | some t ↦ ok (moment t)
  ]
  parse_cell true null = ok null
  parse_cell true (number n) = ok (number n)
  parse_cell true (flag b) = ok (flag b)
  parse_cell true (moment t) = ok (moment t)
  parse_cell false c = ok c

  -- The columns that the row has, in the model's order
  unfoldable pub hydrate_row : List Column → Record → Result Record
  hydrate_row [] row = ok []
  hydrate_row (c ∷ cs) row = elim (hydrate_row cs row) [
    | err e ↦ err e
    | ok rest ↦ elim (lookup c.name row) [
      | none ↦ ok rest
      | some v ↦ elim (parse_cell c.is_datetime v) [
        | err e ↦ err e
        | ok v' ↦ ok ((c.name, v') ∷ rest)
      ]
    ]
  ]

  -- The number of the rows, and the table
  unfoldable pub upsert_rows : Model → List Record → List Record → Result (ℕ × List Record)
  upsert_rows model [] table = ok (0, table)
  upsert_rows model (row ∷ rows) table = elim (hydrate_row model.columns row) [
    | err e ↦ err e
    | ok given ↦ elim (upsert_rows model rows (merge_row model.defaults given table)) [
      | err e ↦ err e
      | ok (count, table') ↦ ok (suc count, table')
    ]
  ]

  -- `[{"_table": name, **_row_to_dict(row)} for row in rows]`
  abbrev pub tagged : Model → Record → Record
  tagged model row = ("_table", word model.table) ∷ row_to_dict model.columns row

  abbrev pub is_of : String → Option Cell → Bool
  is_of name (some (word s)) = s == name
  is_of name _ = false

  abbrev pub strip_tag : Record → Record
  strip_tag row = remove "_table" row

  abbrev pub of_table : Model → List Record → List Record
  of_table model rows =
      map strip_tag (filter (λ (row : Record). is_of model.table (lookup "_table" row)) rows)

  -- `accepts` is what the commit checks; a raise leaves the database as it was.
  module _ (accepts : Database → Bool) where
    abbrev pub commit : ℕ → Database → Database → Result ℕ × Database
    commit count db old =
        if accepts db then (ok count, db) else (err (other_error "IntegrityError"), old)

    unfoldable pub restore_two : Model → Model → List Record → Database → Result ℕ × Database
    restore_two first second rows db =
        elim (upsert_rows first (of_table first rows) (rows_of first db)) [
          | err e ↦ (err e, db)
          | ok (m, table) ↦
              let db' = insert first.table table db in
              elim (upsert_rows second (of_table second rows) (rows_of second db')) [
                | err e ↦ (err e, db)
                | ok (n, table') ↦ commit (m + n) (insert second.table table' db') db
              ]
        ]

    unfoldable pub restore_one : Model → List Record → Database → Result ℕ × Database
    restore_one model rows db = elim (upsert_rows model rows (rows_of model db)) [
      | err e ↦ (err e, db)
      | ok (n, table) ↦ commit n (insert model.table table db) db
    ]

  abbrev pub export_two : Model → Model → Database → List Record
  export_two first second db =
      map (tagged first) (rows_of first db) ++ map (tagged second) (rows_of second db)

  -- The contributors `users` and `tenants`: the users go before their roles, the roles of the
  -- platform before the tenants.
  unfoldable pub export_users : Model → Model → Database → List Record
  export_users user user_tenant_role db = export_two user user_tenant_role db

  unfoldable pub restore_users :
      (Database → Bool) → Model → Model → List Record → Database → Result ℕ × Database
  restore_users accepts user user_tenant_role rows db =
      restore_two accepts user user_tenant_role rows db

  unfoldable pub export_tenants : Model → Model → Database → List Record
  export_tenants tenant_model role db = export_two tenant_model role db

  unfoldable pub restore_tenants :
      (Database → Bool) → Model → Model → List Record → Database → Result ℕ × Database
  restore_tenants accepts tenant_model role rows db = restore_two accepts role tenant_model rows db

  -- A comparison with None is `IS NULL`.
  abbrev pub is_null : Option Cell → Bool
  is_null (some null) = true
  is_null _ = false

  abbrev pub has_word : String → Option String → Record → Bool
  has_word name none row = is_null (lookup name row)
  has_word name (some value) row = is_of value (lookup name row)

  -- `select(Setting)` of a scope
  abbrev pub in_export : BundleScope → Option String → Record → Bool
  in_export platform tenant_id row = is_of "global" (lookup "scope" row)
  in_export tenant tenant_id row =
      is_of "tenant" (lookup "scope" row) && has_word "scope_id" tenant_id row

  unfoldable pub export_settings : Model → BundleScope → Option String → Database → List Record
  export_settings setting scope tenant_id db =
      map (row_to_dict setting.columns) (filter (in_export scope tenant_id) (rows_of setting db))

  unfoldable pub restore_settings :
      (Database → Bool)
      → Model
      → BundleScope
      → Option String
      → List Record
      → Database
      → Result ℕ × Database
  restore_settings accepts setting scope tenant_id rows db = restore_one accepts setting rows db

  unfoldable pub export_items : Model → Option String → Database → List Record
  export_items item tenant_id db =
      map (row_to_dict item.columns) (filter (has_word "tenant_id" tenant_id) (rows_of item db))

  abbrev pub at_least : ℕ → Option Cell → Bool
  at_least since (some (moment t)) = leb since t.instant
  at_least since _ = false

  abbrev pub is_since : String → Option ℕ → Record → Bool
  is_since name none row = true
  is_since name (some since) row = at_least since (lookup name row)

  unfoldable pub restore_items :
      (Database → Bool) → Model → List Record → Database → Result ℕ × Database
  restore_items accepts item rows db = restore_one accepts item rows db

  unfoldable pub export_items_delta : Model → Option String → Option ℕ → Database → List Record
  export_items_delta item tenant_id since db = map (row_to_dict item.columns) (
      filter (is_since "updated_at" since)
        (filter (has_word "tenant_id" tenant_id) (rows_of item db)))

  abbrev pub in_audit : BundleScope → Option String → Record → Bool
  in_audit platform tenant_id row = true
  in_audit tenant tenant_id row = has_word "tenant_id" tenant_id row

  unfoldable pub export_audit :
      Model → BundleScope → Option String → Option ℕ → Database → List Record
  export_audit audit scope tenant_id since db =
      map (row_to_dict audit.columns) (
        filter (is_since "created_at" since) (filter (in_audit scope tenant_id) (rows_of audit db)))

  unfoldable pub restore_audit :
      (Database → Bool) → Model → List Record → Database → Result ℕ × Database
  restore_audit accepts audit rows db = restore_one accepts audit rows db
