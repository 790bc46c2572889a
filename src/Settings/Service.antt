-- ===== src/Settings/Service.antt =====
-- The settings service: scottycore/services/settings/service.py. `dumps` and `loads` are the JSON
-- library's.
use fastapi_modular_template.Base.{
  String, Bool, true, false, not, ◌||◌, Option, none, some, List, [], ◌∷◌, ◌==◌, if◌then◌else◌,
  Dict, lookup, insert, remove, alter, Result, ok, err,
}
use fastapi_modular_template.Settings.Schemas.{
  Value, Field, Coercion, validate, smtp_password_masked, global_settings, tenant_settings,
  user_settings, null, words,
}
use fastapi_modular_template.Settings.Rows.{Setting, get_setting, upsert, list_by_scope}

pub record Json (J : Type 0) : Type 0 where
  pub dumps : Value → J
  pub loads : J → Result Value

pub record EffectiveSettings : Type 0 where
  pub global_part : Dict Value
  pub tenant_part : Option (Dict Value)
  pub user_part : Dict Value
  pub resolved : Dict Value

-- `{r.key: json.loads(r.value_json) for r in rows}`
unfoldable pub stored_from :
    {J : Type 0} → Json J → List (Setting J) → Dict Value → Result (Dict Value)
stored_from json [] stored = ok stored
stored_from json (s ∷ ss) stored = elim (json.loads s.value_json) [
  | err e ↦ err e
  | ok v ↦ stored_from json ss (insert s.key v stored)
]

-- `{**current, **given}`
unfoldable pub merge : Dict Value → Dict Value → Dict Value
merge current [] = current
merge current ((key, v) ∷ given) = merge (insert key v current) given

abbrev pub is_truthy : Value → Bool
is_truthy null = false
is_truthy (words s) = not (s == "")
is_truthy _ = true

-- A password that is set is shown as the mask.
abbrev pub mask_value : Value → Value
mask_value v = if is_truthy v then words smtp_password_masked else v

unfoldable pub mask : Dict Value → Dict Value
mask settings = alter "smtp_password" mask_value settings

-- A password that `set_global` takes as left alone
abbrev pub is_left_alone : Option Value → Bool
is_left_alone none = true
is_left_alone (some null) = true
is_left_alone (some (words s)) = s == smtp_password_masked || s == ""
is_left_alone (some _) = false

-- The defaults of a schema, by key
unfoldable pub default_of : List Field → String → Option Value
default_of [] key = none
default_of (f ∷ fs) key = if f.key == key then some f.default else default_of fs key

unfoldable pub resolve_default : String → Value
resolve_default key = elim (default_of global_settings key) [
  | some v ↦ v
  | none ↦ elim (default_of tenant_settings key) [
    | some v ↦ v
    | none ↦ elim (default_of user_settings key) [ some v ↦ v | none ↦ null ]
  ]
]

-- The row of a tier, where the caller names the tier's owner
abbrev pub row_of :
    {J : Type 0} → String → Option String → String → List (Setting J) → Option (Setting J)
row_of scope none key settings = none
row_of scope (some owner) key settings = get_setting scope (some owner) key settings

module _ {J : Type 0} (json : Json J) where
  unfoldable pub resolve : String → Option String → Option String → List (Setting J) → Result Value
  resolve key user_id tenant_id settings = elim (row_of "user" user_id key settings) [
    | some row ↦ json.loads row.value_json
    | none ↦ elim (row_of "tenant" tenant_id key settings) [
      | some row ↦ json.loads row.value_json
      | none ↦ elim (get_setting "global" none key settings) [
        | some row ↦ json.loads row.value_json
        | none ↦ ok (resolve_default key)
      ]
    ]
  ]

-- The values of a tier that are not None go over those before.
unfoldable pub override : Dict Value → Dict Value → Dict Value
override resolved [] = resolved
override resolved ((key, null) ∷ more) = override resolved more
override resolved ((key, v) ∷ more) = override (insert key v resolved) more

-- The settings of a tier, where the caller names the tier's owner
abbrev pub tier_of :
    {J : Type 0}
    → (String → List (Setting J) → Result (Dict Value))
    → Option String
    → List (Setting J)
    → Result (Dict Value)
tier_of get none settings = ok []
tier_of get (some owner) settings = get owner settings

-- What the change is merged into, and the change without a password that is left alone
abbrev pub unmasked : Value → Dict Value → Dict Value
unmasked password current = insert "smtp_password" password current

abbrev pub incoming : Dict Value → Dict Value
incoming given =
    if is_left_alone (lookup "smtp_password" given) then remove "smtp_password" given else given

module _ {J : Type 0} (json : Json J) (coerce : Coercion) where
  unfoldable pub load_tier :
      List Field → String → Option String → List (Setting J) → Result (Dict Value)
  load_tier schema scope scope_id settings =
      elim (stored_from json (list_by_scope scope scope_id settings) []) [
        | err e ↦ err e
        | ok stored ↦ validate coerce schema stored
      ]

  -- The loop over `validated.model_dump()`
  unfoldable pub upsert_all :
      String → Option String → Option String → Dict Value → List (Setting J) → List (Setting J)
  upsert_all scope scope_id updated_by [] settings = settings
  upsert_all scope scope_id updated_by ((key, v) ∷ more) settings =
      upsert_all scope scope_id updated_by more
        (upsert scope scope_id key (json.dumps v) updated_by settings)

  unfoldable pub get_global : List (Setting J) → Result (Dict Value)
  get_global settings = elim (load_tier global_settings "global" none settings) [
    | err e ↦ err e
    | ok current ↦ ok (mask current)
  ]

  -- The password that is stored, or None
  unfoldable pub real_smtp_password : List (Setting J) → Result Value
  real_smtp_password settings = elim (get_setting "global" none "smtp_password" settings) [
    | none ↦ ok null
    | some row ↦ json.loads row.value_json
  ]

  unfoldable pub set_global :
      Dict Value → String → List (Setting J) → Result (Dict Value) × List (Setting J)
  set_global given user_id settings = elim (get_global settings) [
    | err e ↦ (err e, settings)
    | ok current ↦ elim (real_smtp_password settings) [
      | err e ↦ (err e, settings)
      | ok password ↦
          elim (validate coerce global_settings
            (merge (unmasked password current) (incoming given))) [
              | err e ↦ (err e, settings)
              | ok validated ↦
                  (ok (mask validated), upsert_all "global" none (some user_id) validated settings)
            ]
    ]
  ]

  -- `set_tenant` and `set_user` after their reading of the tier
  unfoldable pub store_tier :
      List Field
      → String
      → Option String
      → String
      → Dict Value
      → List (Setting J)
      → Result (Dict Value) × List (Setting J)
  store_tier schema scope scope_id updated_by given settings =
      elim (load_tier schema scope scope_id settings) [
        | err e ↦ (err e, settings)
        | ok current ↦ elim (validate coerce schema (merge current given)) [
          | err e ↦ (err e, settings)
          | ok validated ↦
              (ok validated, upsert_all scope scope_id (some updated_by) validated settings)
        ]
      ]

  unfoldable pub get_tenant : String → List (Setting J) → Result (Dict Value)
  get_tenant tenant_id = load_tier tenant_settings "tenant" (some tenant_id)

  unfoldable pub set_tenant :
      String → Dict Value → String → List (Setting J) → Result (Dict Value) × List (Setting J)
  set_tenant tenant_id given user_id =
      store_tier tenant_settings "tenant" (some tenant_id) user_id given

  unfoldable pub get_user : String → List (Setting J) → Result (Dict Value)
  get_user user_id = load_tier user_settings "user" (some user_id)

  unfoldable pub set_user :
      String → Dict Value → List (Setting J) → Result (Dict Value) × List (Setting J)
  set_user user_id given = store_tier user_settings "user" (some user_id) user_id given

  unfoldable pub resolve_all :
      Option String → Option String → List (Setting J) → Result (Dict Value)
  resolve_all user_id tenant_id settings = elim (get_global settings) [
    | err e ↦ err e
    | ok resolved ↦ elim (tier_of get_tenant tenant_id settings) [
      | err e ↦ err e
      | ok tenant ↦ elim (tier_of get_user user_id settings) [
        | err e ↦ err e
        | ok user ↦ ok (override (override resolved tenant) user)
      ]
    ]
  ]

  -- A user's settings, or the defaults where the caller names no user
  abbrev pub user_or_default : Option String → List (Setting J) → Result (Dict Value)
  user_or_default none settings = validate coerce user_settings []
  user_or_default (some owner) settings = get_user owner settings

  -- A tenant's settings, or None where the caller names no tenant
  abbrev pub tenant_or_none : Option String → List (Setting J) → Result (Option (Dict Value))
  tenant_or_none none settings = ok none
  tenant_or_none (some owner) settings = elim (get_tenant owner settings) [
    | err e ↦ err e
    | ok tenant ↦ ok (some tenant)
  ]

  unfoldable pub get_effective :
      Option String → Option String → List (Setting J) → Result EffectiveSettings
  get_effective user_id tenant_id settings = elim (get_global settings) [
    | err e ↦ err e
    | ok shown ↦ elim (tenant_or_none tenant_id settings) [
      | err e ↦ err e
      | ok tenant ↦ elim (user_or_default user_id settings) [
        | err e ↦ err e
        | ok user ↦ elim (resolve_all user_id tenant_id settings) [
          | err e ↦ err e
          | ok resolved ↦ ok (record {
            global_part = shown;
            tenant_part = tenant;
            user_part = user;
            resolved = resolved;
          })
        ]
      ]
    ]
  ]
