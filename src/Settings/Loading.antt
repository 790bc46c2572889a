-- ===== src/Settings/Loading.antt =====
-- The rows of a scope and the dictionary that is loaded from them.
use fastapi_modular_template.Base.{
  String, ◌≡◌, refl, ap, inl, inr, Bool, true, false, not, ◌&&◌, ◌||◌, Option, none, some, List, [],
  ◌∷◌, arith, ◌==◌, eq_iff, eq_refl, if◌then◌else◌, Bool-cases, is_some, Dict, lookup, insert,
  lookup-insert, succeeded, Result-cases, ok,
}
use fastapi_modular_template.Settings.Schemas.{Value, FieldType, accepts, Coercion}
use fastapi_modular_template.Settings.Rows.{
  Setting, same_id, get_setting, upsert, in_scope, list_by_scope,
}
use fastapi_modular_template.Settings.Service.{Json, stored_from}

-- The JSON library loads what it has dumped.
abbrev pub LoadsBack : {J : Type 0} → Json J → Type 0
LoadsBack json = (v : Value) → json.loads (json.dumps v) ≡ ok v

-- A value that a field accepts is left as it is.
abbrev pub KeepsAccepted : Coercion → Type 0
KeepsAccepted coerce = (kind : FieldType) (v : Value) → accepts kind v ≡ true → coerce kind v ≡ v

-- The table's unique constraint
unfoldable pub one_row_each : {J : Type 0} → List (Setting J) → Bool
one_row_each [] = true
one_row_each (s ∷ ss) = not (is_some (get_setting s.scope s.scope_id s.key ss)) && one_row_each ss

abbrev pub json_at : {J : Type 0} → Option (Setting J) → Option J
json_at none = none
json_at (some s) = some s.value_json

same_id-eq : (a b : Option String) → same_id a b ≡ true → a ≡ b
unfolding same_id
same_id-eq none none h = refl
same_id-eq none (some b) h = ground arith
same_id-eq (some a) none h = ground arith
same_id-eq (some a) (some b) h = ap some ((eq_iff a b).0 h)

same_id_refl : (a : Option String) → same_id a a ≡ true
unfolding same_id
same_id_refl none = refl
same_id_refl (some a) = eq_refl a

same_id_sym : (a b : Option String) → same_id a b ≡ same_id b a
unfolding same_id
same_id_sym none none = refl
same_id_sym none (some b) = refl
same_id_sym (some a) none = refl
same_id_sym (some a) (some b) = ground (arith, eq_iff a b, eq_iff b a)

module _ {J : Type 0} (scope : String) (scope_id : Option String) where
  pub json-upsert :
      (key other : String) (value : J) (by : Option String) (settings : List (Setting J))
      → json_at (get_setting scope scope_id other (upsert scope scope_id key value by settings))
        ≡ (if key == other then some value else json_at (get_setting scope scope_id other settings))
  unfolding get_setting upsert
  json-upsert key other value by [] = ground (arith, eq_refl scope, same_id_refl scope_id)
  json-upsert key other value by (s ∷ ss) = ground (
    arith,
    json-upsert key other value by ss,
    eq_iff s.key key,
    eq_iff s.key other,
    eq_iff key other,
  )

  none-upsert :
      (scope' : String) (id' : Option String) (key' key : String) (value : J) (by : Option String)
      (settings : List (Setting J))
      → (scope' == scope && same_id id' scope_id && key' == key) ≡ false
      → get_setting scope' id' key' settings ≡ none
      → get_setting scope' id' key' (upsert scope scope_id key value by settings) ≡ none
  unfolding get_setting upsert
  none-upsert scope' id' key' key value by [] differ h = ground (
    arith,
    eq_iff scope scope',
    eq_iff scope' scope,
    eq_iff key key',
    eq_iff key' key,
    same_id_sym id' scope_id,
  )
  none-upsert scope' id' key' key value by (s ∷ ss) differ h =
      ground (arith, none-upsert scope' id' key' key value by ss differ)

  pub one_row-upsert :
      (key : String) (value : J) (by : Option String) (settings : List (Setting J))
      → one_row_each settings ≡ true
      → one_row_each (upsert scope scope_id key value by settings) ≡ true
  unfolding one_row_each upsert get_setting
  one_row-upsert key value by [] h = refl
  one_row-upsert key value by (s ∷ ss) h =
      ground (
        arith,
        one_row-upsert key value by ss,
        none-upsert s.scope s.scope_id s.key key value by ss,
      )

module _ {J : Type 0} (json : Json J) (scope : String) (scope_id : Option String) where
  -- The rows of the scope all load.
  unfoldable pub loads_all : List (Setting J) → Bool
  loads_all [] = true
  loads_all (s ∷ ss) =
      (not (in_scope scope scope_id s) || succeeded (json.loads s.value_json)) && loads_all ss

  pub loads_all-upsert :
      (key : String) (by : Option String) (v : Value) (settings : List (Setting J))
      → LoadsBack json
      → loads_all settings ≡ true
      → loads_all (upsert scope scope_id key (json.dumps v) by settings) ≡ true
  unfolding loads_all upsert
  loads_all-upsert key by v [] back h = ground (arith, back v)
  loads_all-upsert key by v (s ∷ ss) back h =
      ground (arith, back v, loads_all-upsert key by v ss back)

  pub loaded :
      (settings : List (Setting J)) (stored d : Dict Value)
      → stored_from json (list_by_scope scope scope_id settings) stored ≡ ok d
      → loads_all settings ≡ true
  unfolding loads_all stored_from list_by_scope
  loaded [] stored d h = refl
  loaded (s ∷ ss) stored d h = elim (Bool-cases (in_scope scope scope_id s)) [
    | inl inside ↦ elim (Result-cases (json.loads s.value_json)) [
      | inl (v, read) ↦ ground (arith, inside, read, loaded ss (insert s.key v stored) d)
      | inr (e, unread) ↦ ground (arith, inside, unread)
    ]
    | inr outside ↦ ground (arith, loaded ss stored d, outside)
  ]

  -- A key without a row keeps the value that it has, and one with a row gets the row's.
  loaded-absent :
      (settings : List (Setting J)) (stored d : Dict Value) (key : String)
      → get_setting scope scope_id key settings ≡ none
      → stored_from json (list_by_scope scope scope_id settings) stored ≡ ok d
      → lookup key d ≡ lookup key stored
  unfolding stored_from list_by_scope get_setting
  loaded-absent [] stored d key absent h = ground (arith, h)
  loaded-absent (s ∷ ss) stored d key absent h = elim (Result-cases (json.loads s.value_json)) [
    | inl (v, read) ↦ ground (
      arith,
      read,
      lookup-insert s.key key v stored,
      loaded-absent ss (insert s.key v stored) d key,
      loaded-absent ss stored d key,
    )
    | inr (e, unread) ↦ ground (arith, unread, loaded-absent ss stored d key)
  ]

  pub loaded-present :
      (settings : List (Setting J)) (stored d : Dict Value) (key : String) (row : Setting J)
      (w : Value)
      → one_row_each settings ≡ true
      → get_setting scope scope_id key settings ≡ some row
      → json.loads row.value_json ≡ ok w
      → stored_from json (list_by_scope scope scope_id settings) stored ≡ ok d
      → lookup key d ≡ some w
  unfolding stored_from list_by_scope get_setting one_row_each
  loaded-present [] stored d key row w one found good h = ground arith
  loaded-present (s ∷ ss) stored d key row w one found good h =
      elim (Result-cases (json.loads s.value_json)) [
        | inl (v, read) ↦ ground (
          arith,
          read,
          good,
          eq_iff s.key key,
          eq_iff s.scope scope,
          same_id-eq s.scope_id scope_id,
          lookup-insert s.key key v stored,
          loaded-absent ss (insert s.key v stored) d key,
          loaded-present ss (insert s.key v stored) d key row w,
          loaded-present ss stored d key row w,
        )
        | inr (e, unread) ↦ ground (arith, unread, good, loaded-present ss stored d key row w)
      ]

  -- Rows that load are loaded.
  pub loads_all-loaded :
      (settings : List (Setting J)) (stored : Dict Value)
      → loads_all settings ≡ true
      → (d : Dict Value) × (stored_from json (list_by_scope scope scope_id settings) stored ≡ ok d)
  unfolding loads_all stored_from list_by_scope
  loads_all-loaded [] stored h = (stored, refl)
  loads_all-loaded (s ∷ ss) stored h = elim (Bool-cases (in_scope scope scope_id s)) [
    | inl inside ↦ elim (Result-cases (json.loads s.value_json)) [
      | inl (v, read) ↦
          let (d, e) = loads_all-loaded ss (insert s.key v stored) (ground arith) in
          (d, ground (arith, inside, read, e))
      | inr (e, unread) ↦ ground (arith, inside, unread)
    ]
    | inr outside ↦
        let (d, e) = loads_all-loaded ss stored (ground arith) in (d, ground (arith, outside, e))
  ]
