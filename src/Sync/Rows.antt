-- ===== src/Sync/Rows.antt =====
-- Rows of a bundle, the tables that the sync engine writes, and the two helpers on them that need
-- no peer: `_parse_ts` of scottycore/services/sync/engine.py, the row origins and the conflicts of
-- scottycore/services/sync/repository.py.
use fastapi_modular_template.Base.{
  String, ◌≡◌, ◌&&◌, Option, none, some, List, [], ◌∷◌, ◌++◌, arith, ◌==◌, eq_iff, eqb,
  if◌then◌else◌,
}
use Prim.Native.Char.{code}
use Prim.Native.String
use mathlib.Core.Option
use fastapi_modular_template.Sync.Lww.{Datetime}

-- `row["updated_at"]`, or its absence.
pub data Stamp : Type 0 where
  absent : Stamp
  moment : Datetime → Stamp
  iso : String → Stamp
  unreadable : Stamp

-- A row is a JSON object; `id` is `str(row.get("id", ""))`.
pub record Row : Type 0 where
  pub id : String
  pub tenant_id : Option String
  pub updated_at : Stamp
  pub payload : String

-- `value.replace("Z", "+00:00")`
unfoldable pub replace_z : String → String
replace_z String.[] = ""
replace_z (String.◌∷◌ c s) =
    String.◌++◌ (if eqb (code c) b'Z' then "+00:00" else String.◌∷◌ c "") (replace_z s)

unfoldable pub parse_ts : (String → Option Datetime) → Stamp → Option Datetime
parse_ts fromisoformat absent = none
parse_ts fromisoformat (moment t) = some t
parse_ts fromisoformat (iso s) = fromisoformat (replace_z s)
parse_ts fromisoformat unreadable = none

pub record RowOrigin : Type 0 where
  pub table_name : String
  pub row_id : String
  pub origin_node_id : String

unfoldable pub get_row_origin : List RowOrigin → String → String → Option RowOrigin
get_row_origin [] table_name row_id = none
get_row_origin (o ∷ os) table_name row_id =
    if o.table_name == table_name && o.row_id == row_id
    then some o
    else get_row_origin os table_name row_id

-- `session.merge` on the primary key (table_name, row_id)
unfoldable pub upsert_row_origin : List RowOrigin → String → String → String → List RowOrigin
upsert_row_origin [] table_name row_id origin =
    record { table_name = table_name; row_id = row_id; origin_node_id = origin } ∷ []
upsert_row_origin (o ∷ os) table_name row_id origin =
    if o.table_name == table_name && o.row_id == row_id
    then record o { origin_node_id = origin } ∷ os
    else o ∷ upsert_row_origin os table_name row_id origin

pub record Conflict : Type 0 where
  pub peer_id : String
  pub tenant_id : Option String
  pub resource_type : String
  pub resource_id : String
  pub local_payload : Option Row
  pub remote_payload : Row
  pub resolution : String

unfoldable pub create_conflict : List Conflict → Conflict → List Conflict
create_conflict cs c = cs ++ c ∷ []

pub get-upsert_row_origin :
    (os : List RowOrigin) (t r o t' r' : String)
    → Option.map
        (λ (x : RowOrigin). x.origin_node_id)
        (get_row_origin (upsert_row_origin os t r o) t' r')
      ≡ (if t == t' && r == r'
          then some o
          else Option.map (λ (x : RowOrigin). x.origin_node_id) (get_row_origin os t' r'))
unfolding get_row_origin upsert_row_origin
get-upsert_row_origin [] t r o t' r' = ground arith
get-upsert_row_origin (x ∷ os) t r o t' r' = ground (
  arith,
  get-upsert_row_origin os t r o t' r',
  eq_iff x.table_name t,
  eq_iff x.row_id r,
  eq_iff x.table_name t',
  eq_iff x.row_id r',
  eq_iff t t',
  eq_iff r r',
)
