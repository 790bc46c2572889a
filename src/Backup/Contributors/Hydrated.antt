-- ===== src/Backup/Contributors/Hydrated.antt =====
-- Rows that are written out and read in again.
use fastapi_modular_template.Base.{
  String, ◌≡◌, refl, Bool, true, false, ◌&&◌, ◌||◌, Option, none, some, List, [], ◌∷◌, arith, ◌==◌,
  eq_iff, if◌then◌else◌, lookup, insert, lookup-insert, ok,
}
use fastapi_modular_template.Sync.Lww.{Datetime}
use fastapi_modular_template.Sync.Rows.{replace_z}
use fastapi_modular_template.Backup.Contributors.{
  Cell, null, word, number, flag, moment, Record, Column, cell_or_null, overlay, flat, row_to_dict,
  parse_cell, hydrate_row,
}

-- `fromisoformat` reads what `isoformat` writes, in which no Z stands.
abbrev pub ReadsBack : (Datetime → String) → (String → Option Datetime) → Type 0
ReadsBack isoformat fromisoformat =
    (t : Datetime) → fromisoformat (replace_z (isoformat t)) ≡ some t

unfoldable pub has_column : String → List Column → Bool
has_column name [] = false
has_column name (c ∷ cs) = c.name == name || has_column name cs

abbrev pub cell_at : String → Record → Cell
cell_at name row = cell_or_null (lookup name row)

-- A column of times holds times or None, another one no times.
abbrev pub suits : Bool → Cell → Bool
suits true null = true
suits true (moment t) = true
suits true _ = false
suits false (moment t) = false
suits false _ = true

unfoldable pub fits : List Column → Record → Bool
fits [] row = true
fits (c ∷ cs) row = suits c.is_datetime (cell_at c.name row) && fits cs row

-- The cells of the columns
unfoldable pub project : List Column → Record → Record
project [] row = []
project (c ∷ cs) row = (c.name, cell_at c.name row) ∷ project cs row

pub lookup-overlay-project :
    (cs : List Column) (row old : Record) (name : String)
    → lookup name (overlay old (project cs row))
      ≡ (if has_column name cs then some (cell_at name row) else lookup name old)
unfolding project overlay has_column
lookup-overlay-project [] row old name = refl
lookup-overlay-project (c ∷ cs) row old name = ground (
  arith,
  lookup-overlay-project cs row (insert c.name (cell_at c.name row) old) name,
  lookup-insert c.name name (cell_at c.name row) old,
  eq_iff c.name name,
)

pub lookup-project :
    (cs : List Column) (row : Record) (name : String)
    → lookup name (project cs row) ≡ (if has_column name cs then some (cell_at name row) else none)
unfolding project lookup has_column
lookup-project [] row name = refl
lookup-project (c ∷ cs) row name = ground (arith, lookup-project cs row name, eq_iff c.name name)

module _ (isoformat : Datetime → String) (fromisoformat : String → Option Datetime)
    (reads : ReadsBack isoformat fromisoformat) where
  pub lookup-row_to_dict :
      (cs : List Column) (row : Record) (name : String)
      → lookup name (row_to_dict isoformat fromisoformat cs row) ≡ (
          if has_column name cs
          then some (flat isoformat fromisoformat (cell_at name row))
          else none)
  unfolding row_to_dict lookup has_column
  lookup-row_to_dict [] row name = refl
  lookup-row_to_dict (c ∷ cs) row name =
      ground (arith, lookup-row_to_dict cs row name, eq_iff c.name name)

  parse-flat :
      (b : Bool) (c : Cell)
      → suits b c ≡ true
      → parse_cell isoformat fromisoformat b (flat isoformat fromisoformat c) ≡ ok c
  parse-flat true null h = refl
  parse-flat true (word s) h = ground arith
  parse-flat true (number n) h = ground arith
  parse-flat true (flag b) h = ground arith
  parse-flat true (moment t) h = ground (arith, reads t)
  parse-flat false null h = refl
  parse-flat false (word s) h = refl
  parse-flat false (number n) h = refl
  parse-flat false (flag b) h = refl
  parse-flat false (moment t) h = ground arith

  pub hydrate-project :
      (cs : List Column) (row d : Record)
      → fits cs row ≡ true
      → ((name : String)
          → has_column name cs ≡ true
          → lookup name d ≡ some (flat isoformat fromisoformat (cell_at name row)))
      → hydrate_row isoformat fromisoformat cs d ≡ ok (project cs row)
  unfolding hydrate_row fits project has_column
  hydrate-project [] row d h agree = refl
  hydrate-project (c ∷ cs) row d h agree = ground (
    arith,
    hydrate-project cs row d (ground arith) (λ name held. agree name (ground (arith, held))),
    agree c.name (ground (arith, eq_iff c.name c.name)),
    parse-flat c.is_datetime (cell_at c.name row),
  )
