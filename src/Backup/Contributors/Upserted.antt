-- ===== src/Backup/Contributors/Upserted.antt =====
-- What the restore of exported rows leaves in the tables.
use fastapi_modular_template.Base.{
  ℕ, ◌+◌, String, ◌≡◌, refl, ap, ◌∙◌, inl, inr, Bool, true, false, not, ◌&&◌, Option, none, some,
  List, [], ◌∷◌, ◌++◌, map, arith, ◌==◌, eq_iff, eq_refl, if◌then◌else◌, Bool-cases, is_some,
  length, filter, lookup, insert, lookup-insert, lookup-remove, ok,
}
use mathlib.Core.List.{append-nil, map-append}
use fastapi_modular_template.Sync.Lww.{Datetime}
use fastapi_modular_template.Backup.Contributors.{
  Cell, null, word, number, flag, moment, Record, Column, Model, Database, rows_of, same_key,
  key_of, get, overlay, merge_row, flat, upsert_rows, tagged, strip_tag, is_of, of_table,
  export_two, restore_two, export_users, restore_users,
}
use fastapi_modular_template.Backup.Contributors.Hydrated.{
  ReadsBack, has_column, cell_at, fits, project, lookup-overlay-project, lookup-project,
  lookup-row_to_dict, hydrate-project,
}

same_key-eq : (a b : Cell) → same_key a b ≡ true → a ≡ b
same_key-eq (word a) (word b) h = ground (arith, eq_iff a b)
same_key-eq (number m) (number n) h = ground arith
same_key-eq null b h = ground arith
same_key-eq (flag x) b h = ground arith
same_key-eq (moment t) b h = ground arith
same_key-eq (word a) null h = ground arith
same_key-eq (word a) (number n) h = ground arith
same_key-eq (word a) (flag x) h = ground arith
same_key-eq (word a) (moment t) h = ground arith
same_key-eq (number m) null h = ground arith
same_key-eq (number m) (word a) h = ground arith
same_key-eq (number m) (flag x) h = ground arith
same_key-eq (number m) (moment t) h = ground arith

-- A key that is one
abbrev pub is_key : Cell → Bool
is_key c = same_key c c

-- The rows have keys, all different, and fit the columns.
unfoldable pub sound : List Column → List Record → Bool
sound cs [] = true
sound cs (row ∷ rows) =
    is_key (key_of row) && not (is_some (get (key_of row) rows)) && fits cs row && sound cs rows

unfoldable pub merge_all : Record → List Record → List Record → List Record
merge_all defaults [] table = table
merge_all defaults (given ∷ more) table = merge_all defaults more (merge_row defaults given table)

unfoldable pub old_or : Record → Option Record → Record
old_or defaults none = defaults
old_or defaults (some row) = row

-- A row that is found holds, in each column, what another one does.
abbrev pub AgreesWith : List Column → Record → Option Record → Type 0
AgreesWith cs row found =
    (stored : Record) × (found ≡ some stored)
    × ((name : String) → has_column name cs ≡ true → lookup name stored ≡ some (cell_at name row))

module _ (cs : List Column) (keyed : has_column "id" cs ≡ true) where
  key-project : (row : Record) → key_of (project cs row) ≡ key_of row
  key-project row = rw (lookup-project cs row "id", keyed) refl

  key-overlay : (old row : Record) → key_of (overlay old (project cs row)) ≡ key_of row
  key-overlay old row = rw (lookup-overlay-project cs row old "id", keyed) refl

  pub get-merge :
      (defaults row : Record) (k : Cell) (table : List Record)
      → is_key (key_of row) ≡ true
      → get k (merge_row defaults (project cs row) table) ≡ (
          if same_key (key_of row) k
          then some (overlay (old_or defaults (get (key_of row) table)) (project cs row))
          else get k table)
  unfolding get merge_row old_or
  get-merge defaults row k [] good = ground (arith, key-overlay defaults row)
  get-merge defaults row k (first ∷ table) good = ground (
    arith,
    key-project row,
    key-overlay first row,
    get-merge defaults row k table good,
    same_key-eq (key_of first) (key_of row),
    same_key-eq (key_of row) k,
  )

  get-merge_all_other :
      (defaults : Record) (k : Cell) (rows table : List Record)
      → sound cs rows ≡ true
      → get k rows ≡ none
      → get k (merge_all defaults (map (project cs) rows) table) ≡ get k table
  unfolding merge_all sound get
  get-merge_all_other defaults k [] table h absent = refl
  get-merge_all_other defaults k (row ∷ rows) table h absent = ground (
    arith,
    get-merge_all_other defaults k rows (merge_row defaults (project cs row) table),
    get-merge defaults row k table,
  )

  get-merge_all :
      (defaults : Record) (k : Cell) (row : Record) (rows table : List Record)
      → sound cs rows ≡ true
      → get k rows ≡ some row
      → AgreesWith cs row (get k (merge_all defaults (map (project cs) rows) table))
  unfolding merge_all sound get
  get-merge_all defaults k row [] table h found = ground arith
  get-merge_all defaults k row (first ∷ rows) table h found =
      elim (Bool-cases (same_key (key_of first) k)) [
        | inr other ↦
            get-merge_all defaults k row rows (merge_row defaults (project cs first) table)
              (ground arith) (ground (arith, other))
        | inl same ↦
            let old = old_or defaults (get (key_of first) table) in
            (
              overlay old (project cs first),
              ground (
                arith,
                same,
                get-merge_all_other defaults k rows (merge_row defaults (project cs first) table),
                get-merge defaults first k table,
                same_key-eq (key_of first) k same,
              ),
              (λ name held.
                  rw (lookup-overlay-project cs first old name, held)
                    (ground (arith, same, found))),
            )
      ]

filter-append :
    (p : Record → Bool) (xs ys : List Record) → filter p (xs ++ ys) ≡ filter p xs ++ filter p ys
filter-append p [] ys = refl
filter-append p (x ∷ xs) ys = ground (arith, filter-append p xs ys)

module _ (isoformat : Datetime → String) (fromisoformat : String → Option Datetime)
    (reads : ReadsBack isoformat fromisoformat) where
  abbrev untagged : Model → Record → Record
  untagged model row = strip_tag isoformat fromisoformat (tagged isoformat fromisoformat model row)

  untagged-lookup :
      (model : Model) (row : Record)
      → has_column "_table" model.columns ≡ false
      → (name : String) → has_column name model.columns ≡ true
      → lookup name (untagged model row) ≡ some (flat isoformat fromisoformat (cell_at name row))
  unfolding lookup
  untagged-lookup model row plain name held = ground (
    arith,
    plain,
    held,
    eq_iff "_table" name,
    lookup-remove "_table" name (tagged isoformat fromisoformat model row),
    lookup-row_to_dict isoformat fromisoformat reads model.columns row name,
  )

  upsert-merged :
      (model : Model) (rows table : List Record)
      → has_column "_table" model.columns ≡ false
      → sound model.columns rows ≡ true
      → upsert_rows isoformat fromisoformat model (map (untagged model) rows) table
        ≡ ok (length rows, merge_all model.defaults (map (project model.columns) rows) table)
  unfolding upsert_rows merge_all sound
  upsert-merged model [] table plain h = refl
  upsert-merged model (row ∷ rows) table plain h = ground (
    arith,
    hydrate-project isoformat fromisoformat reads model.columns row (untagged model row)
        (ground arith) (untagged-lookup model row plain),
    upsert-merged model rows (merge_row model.defaults (project model.columns row) table) plain,
  )

  of_tagged :
      (model other : Model) (rows : List Record)
      → of_table isoformat fromisoformat model (map (tagged isoformat fromisoformat other) rows)
        ≡ (if other.table == model.table then map (untagged other) rows else [])
  unfolding lookup
  of_tagged model other [] = ground arith
  of_tagged model other (row ∷ rows) = ground (arith, of_tagged model other rows)

  of_exported :
      (model : Model) (xs ys : Model) (db : Database)
      → of_table isoformat fromisoformat model (export_two isoformat fromisoformat xs ys db)
        ≡ (if xs.table == model.table then map (untagged xs) (rows_of xs db) else [])
          ++ (if ys.table == model.table then map (untagged ys) (rows_of ys db) else [])
  of_exported model xs ys db =
      let rows = map (tagged isoformat fromisoformat xs) (rows_of xs db) in
      let more = map (tagged isoformat fromisoformat ys) (rows_of ys db) in
      ap (map (strip_tag isoformat fromisoformat)) (filter-append _ rows more)
      ∙ map-append (strip_tag isoformat fromisoformat)
          (filter (λ x. is_of isoformat fromisoformat model.table (lookup "_table" x)) rows)
          (filter (λ x. is_of isoformat fromisoformat model.table (lookup "_table" x)) more)
      ∙ cc (of_tagged model xs (rows_of xs db), of_tagged model ys (rows_of ys db))

  module _ (user user_tenant_role : Model) (db target : Database)
      (apart : (user.table == user_tenant_role.table) ≡ false)
      (plain : has_column "_table" user.columns ≡ false)
      (plain' : has_column "_table" user_tenant_role.columns ≡ false)
      (keyed : has_column "id" user.columns ≡ true)
      (keyed' : has_column "id" user_tenant_role.columns ≡ true)
      (fit : sound user.columns (rows_of user db) ≡ true)
      (fit' : sound user_tenant_role.columns (rows_of user_tenant_role db) ≡ true) where
    abbrev users_after : List Record
    users_after =
        merge_all user.defaults (map (project user.columns) (rows_of user db)) (rows_of user target)

    abbrev roles_after : List Record
    roles_after =
        merge_all user_tenant_role.defaults
          (map (project user_tenant_role.columns) (rows_of user_tenant_role db))
          (rows_of user_tenant_role target)

    restored :
        (accepts : Database → Bool) (n : ℕ)
        → (restore_users isoformat fromisoformat accepts user user_tenant_role
            (export_users isoformat fromisoformat user user_tenant_role db)
            target).0
          ≡ ok n
        → (n ≡ length (rows_of user db) + length (rows_of user_tenant_role db))
          × ((restore_users isoformat fromisoformat accepts user user_tenant_role
                (export_users isoformat fromisoformat user user_tenant_role db)
                target).1
              ≡ insert user_tenant_role.table roles_after (insert user.table users_after target))
    unfolding restore_users export_users restore_two
    restored accepts n h = ground (
      arith,
      of_exported user user user_tenant_role db,
      of_exported user_tenant_role user user_tenant_role db,
      eq_refl user.table,
      eq_refl user_tenant_role.table,
      eq_iff user.table user_tenant_role.table,
      eq_iff user_tenant_role.table user.table,
      append-nil (map (untagged user) (rows_of user db)),
      upsert-merged user (rows_of user db) (rows_of user target) plain fit,
      upsert-merged user_tenant_role (rows_of user_tenant_role db) (rows_of user_tenant_role target)
          plain' fit',
      lookup-insert user.table user_tenant_role.table users_after target,
    )

    users_kept :
        rows_of user
          (insert user_tenant_role.table roles_after (insert user.table users_after target))
        ≡ users_after
    users_kept = ground (
      arith,
      lookup-insert user_tenant_role.table user.table roles_after
          (insert user.table users_after target),
      lookup-insert user.table user.table users_after target,
      eq_iff user_tenant_role.table user.table,
      eq_iff user.table user_tenant_role.table,
      eq_refl user.table,
    )

    roles_kept :
        rows_of user_tenant_role
          (insert user_tenant_role.table roles_after (insert user.table users_after target))
        ≡ roles_after
    roles_kept = ground (
      arith,
      lookup-insert user_tenant_role.table user_tenant_role.table roles_after
          (insert user.table users_after target),
      eq_refl user_tenant_role.table,
    )

    -- A restore that succeeds of what the users contributor exported counts every exported row,
    -- and leaves every user and every role assignment of the exported database in the target, each
    -- column as it was, if the rows fit their columns, have keys that differ, and isoformat is
    -- read back.
    pub restore_users-export :
        (accepts : Database → Bool) (n : ℕ)
        → (restore_users isoformat fromisoformat accepts user user_tenant_role
            (export_users isoformat fromisoformat user user_tenant_role db)
            target).0
          ≡ ok n
        → (n ≡ length (rows_of user db) + length (rows_of user_tenant_role db))
          × ((key : Cell) (row : Record)
              → get key (rows_of user db) ≡ some row
              → AgreesWith user.columns row (
                  get key (
                    rows_of user
                      (restore_users isoformat fromisoformat accepts user user_tenant_role
                        (export_users isoformat fromisoformat user user_tenant_role db)
                        target).1)))
          × ((key : Cell) (row : Record)
              → get key (rows_of user_tenant_role db) ≡ some row
              → AgreesWith user_tenant_role.columns row (
                  get key (
                    rows_of user_tenant_role
                      (restore_users isoformat fromisoformat accepts user user_tenant_role
                        (export_users isoformat fromisoformat user user_tenant_role db)
                        target).1)))
    restore_users-export accepts n h =
        let (count, after) = restored accepts n h in
        (
          count,
          (λ key row found.
              rw (after, users_kept)
                (get-merge_all user.columns keyed user.defaults key row (rows_of user db)
                  (rows_of user target) fit found)),
          (λ key row found.
              rw (after, roles_kept)
                (get-merge_all user_tenant_role.columns keyed' user_tenant_role.defaults key row
                  (rows_of user_tenant_role db) (rows_of user_tenant_role target) fit' found)),
        )
