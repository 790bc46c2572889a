-- ===== src/Settings/Rows.antt =====
-- The key-value table: scottycore/services/settings/models.py and
-- scottycore/services/settings/repository.py.
use fastapi_modular_template.Base.{
  String, Bool, true, false, ◌&&◌, Option, none, some, List, [], ◌∷◌, ◌==◌, if◌then◌else◌, filter,
}

-- `J` is the type of the JSON texts, into which only the JSON library looks.
pub record Setting (J : Type 0) : Type 0 where
  pub scope : String
  pub scope_id : Option String
  pub key : String
  pub value_json : J
  pub updated_by : Option String

-- Equality of two identifiers, of which `None` is one
unfoldable pub same_id : Option String → Option String → Bool
same_id none none = true
same_id (some a) (some b) = a == b
same_id _ _ = false

module _ {J : Type 0} where
  abbrev pub in_scope : String → Option String → Setting J → Bool
  in_scope scope scope_id s = s.scope == scope && same_id s.scope_id scope_id

  unfoldable pub get_setting :
      String → Option String → String → List (Setting J) → Option (Setting J)
  get_setting scope scope_id key [] = none
  get_setting scope scope_id key (s ∷ ss) =
      if in_scope scope scope_id s && s.key == key
      then some s
      else get_setting scope scope_id key ss

  -- The value of the row that is there is replaced, or a row is added.
  unfoldable pub upsert :
      String → Option String → String → J → Option String → List (Setting J) → List (Setting J)
  upsert scope scope_id key value_json updated_by [] =
      record {
        scope = scope;
        scope_id = scope_id;
        key = key;
        value_json = value_json;
        updated_by = updated_by;
      }
      ∷ []
  upsert scope scope_id key value_json updated_by (s ∷ ss) =
      if in_scope scope scope_id s && s.key == key
      then record s { value_json = value_json; updated_by = updated_by } ∷ ss
      else s ∷ upsert scope scope_id key value_json updated_by ss

  unfoldable pub list_by_scope : String → Option String → List (Setting J) → List (Setting J)
  list_by_scope scope scope_id settings = filter (in_scope scope scope_id) settings

  unfoldable pub delete : String → Option String → String → List (Setting J) → List (Setting J)
  delete scope scope_id key [] = []
  delete scope scope_id key (s ∷ ss) =
      if in_scope scope scope_id s && s.key == key then ss else s ∷ delete scope scope_id key ss
