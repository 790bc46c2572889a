-- ===== src/Tests/ContributorCases.antt =====
-- The theorems on the contributors at concrete inputs. A time is written as a letter for its kind
-- and one for each microsecond.
use fastapi_modular_template.Base.{
  ℕ, zero, suc, ◌+◌, String, ◌≡◌, refl, Bool, true, false, Option, none, some, [], ◌∷◌, arith, eqb,
  if◌then◌else◌, length, lookup, insert, remove,
}
use Prim.Native.Char.{code}
use text.Mathlib.TextLemmas.{cons-append, nil-append}
use fastapi_modular_template.Sync.Lww.{Datetime}
use fastapi_modular_template.Sync.Rows.{replace_z}
use fastapi_modular_template.Backup.Bundle.{tenant}
use fastapi_modular_template.Backup.Contributors.{
  Cell, word, moment, Record, Model, Database, rows_of, key_of, get, overlay, merge_row,
  row_to_dict, hydrate_row, upsert_rows, restore_two, restore_one, export_users, restore_users,
  restore_settings,
}
use fastapi_modular_template.Backup.Contributors.Hydrated.{ReadsBack, has_column, fits}
use fastapi_modular_template.Backup.Contributors.Upserted.{AgreesWith, sound, restore_users-export}
use fastapi_modular_template.Backup.Contributors.Crossing.{tenant_restore-writes}

strokes : ℕ → String
strokes zero = ""
strokes (suc n) = String.◌∷◌ "x" (strokes n)

count_of : String → ℕ
count_of String.[] = 0
count_of (String.◌∷◌ c s) = suc (count_of s)

isoformat : Datetime → String
isoformat t = String.◌∷◌ (if t.aware then "a" else "n") (strokes t.instant)

fromisoformat : String → Option Datetime
fromisoformat String.[] = none
fromisoformat (String.◌∷◌ c s) = some (record { aware = eqb (code c) b'a'; instant = count_of s })

replace_z-strokes : (n : ℕ) → replace_z (strokes n) ≡ strokes n
unfolding replace_z strokes
replace_z-strokes zero = refl
replace_z-strokes (suc n) = rw (replace_z-strokes n, cons-append, nil-append) refl

count_of-strokes : (n : ℕ) → count_of (strokes n) ≡ n
unfolding count_of strokes
count_of-strokes zero = refl
count_of-strokes (suc n) = omega (arith, count_of-strokes n)

written :
    (b : Bool) (n : ℕ)
    → fromisoformat (replace_z (isoformat (record { aware = b; instant = n })))
      ≡ some (record { aware = b; instant = n })
unfolding isoformat fromisoformat replace_z
written true n =
    rw (replace_z-strokes n, cons-append, nil-append) (ground (arith, count_of-strokes n))
written false n =
    rw (replace_z-strokes n, cons-append, nil-append) (ground (arith, count_of-strokes n))

reads_back : ReadsBack isoformat fromisoformat
reads_back t = written t.aware t.instant

abbrev user : Model
user = record {
  table = "users";
  columns =
      record { name = "id"; is_datetime = false }
      ∷ record { name = "last_login"; is_datetime = true }
      ∷ [];
  defaults = [];
}

abbrev user_tenant_role : Model
user_tenant_role = record {
  table = "user_tenant_roles";
  columns =
      record { name = "id"; is_datetime = false }
      ∷ record { name = "user_id"; is_datetime = false }
      ∷ [];
  defaults = [];
}

abbrev setting : Model
setting = record {
  table = "settings";
  columns =
      record { name = "id"; is_datetime = false }
      ∷ record { name = "scope"; is_datetime = false }
      ∷ [];
  defaults = [];
}

abbrev amy : Record
amy = ("id", word "u1") ∷ ("last_login", moment (record { aware = true; instant = 2 })) ∷ []

abbrev member : Record
member = ("id", word "r1") ∷ ("user_id", word "u1") ∷ []

abbrev global : Record
global = ("id", word "s1") ∷ ("scope", word "global") ∷ []

abbrev db : Database
db = ("users", amy ∷ []) ∷ ("user_tenant_roles", member ∷ []) ∷ []

restore_users-export_example :
    (2 ≡ length (rows_of user db) + length (rows_of user_tenant_role db))
    × ((key : Cell) (row : Record)
        → get key (rows_of user db) ≡ some row
        → AgreesWith user.columns row (
            get key (
              rows_of user
                (restore_users isoformat fromisoformat
                  (λ d. true)
                  user
                  user_tenant_role
                  (export_users isoformat fromisoformat user user_tenant_role db)
                  []).1)))
    × ((key : Cell) (row : Record)
        → get key (rows_of user_tenant_role db) ≡ some row
        → AgreesWith user_tenant_role.columns row (
            get key (
              rows_of user_tenant_role
                (restore_users isoformat fromisoformat
                  (λ d. true)
                  user
                  user_tenant_role
                  (export_users isoformat fromisoformat user user_tenant_role db)
                  []).1)))
unfolding has_column sound fits get restore_users export_users restore_two upsert_rows hydrate_row
    row_to_dict merge_row overlay lookup insert remove replace_z isoformat fromisoformat strokes
    count_of
restore_users-export_example =
    restore_users-export isoformat fromisoformat reads_back user user_tenant_role db [] refl refl
      refl refl refl refl refl (λ d. true) 2 refl

tenant_restore-writes_example : AgreesWith setting.columns global (
    get (key_of global) (
      rows_of setting
        (restore_settings isoformat fromisoformat
          (λ d. true)
          setting
          tenant
          (some "t1")
          (row_to_dict isoformat fromisoformat setting.columns global ∷ [])
          []).1))
unfolding has_column fits lookup restore_settings restore_one upsert_rows hydrate_row row_to_dict
    merge_row overlay insert
tenant_restore-writes_example =
    tenant_restore-writes isoformat fromisoformat reads_back (λ d. true) setting "t1" [] global 1
      refl refl refl refl
