-- ===== src/Tests/SettingsCases.antt =====
-- The theorems on the settings at concrete inputs. JSON has texts alone here.
use fastapi_modular_template.Base.{
  ◌≡◌, refl, none, some, List, [], ◌∷◌, Dict, lookup, insert, remove, alter, Result, ok, err,
}
use fastapi_modular_template.Settings.Schemas.{
  Value, within, accepts, Coercion, validate, words, global_settings, tenant_settings,
  user_settings,
}
use fastapi_modular_template.Settings.Rows.{Setting, same_id, get_setting, list_by_scope}
use fastapi_modular_template.Settings.Loading.{LoadsBack, KeepsAccepted, one_row_each}
use fastapi_modular_template.Settings.RoundTrip.{set_global-get_global}
use fastapi_modular_template.Settings.Typed.{IsTyped, loaded-IsTyped}
use fastapi_modular_template.Settings.Secrets.{set_global-keeps_password}
use fastapi_modular_template.Settings.Service.{
  Json, stored_from, merge, mask, load_tier, get_global, real_smtp_password, set_global, get_tenant,
  get_user,
}

-- A JSON library whose texts are the values
abbrev json : Json Value
json = record { dumps = λ v. v; loads = λ v. ok v }

abbrev plain : Coercion
plain = λ kind v. v

json-LoadsBack : LoadsBack json
json-LoadsBack v = refl

plain-KeepsAccepted : KeepsAccepted plain
plain-KeepsAccepted kind v h = refl

abbrev stored_password : List (Setting Value)
stored_password =
    record {
      scope = "global";
      scope_id = none;
      key = "smtp_password";
      value_json = words "hunter2";
      updated_by = some "u1";
    }
    ∷ []

abbrev change : Dict Value
change = ("smtp_host", words "mail") ∷ ("smtp_password", words "*****") ∷ []

abbrev value_or {ℓ} : {A : Type ℓ} → A → Result A → A
value_or a (ok b) = b
value_or a (err e) = a

abbrev shown : Dict Value
shown = value_or [] (set_global json plain change "u2" stored_password).0

set_global-keeps_password_example :
    real_smtp_password json plain (set_global json plain change "u2" stored_password).1
    ≡ ok (words "hunter2")
unfolding set_global get_global load_tier real_smtp_password stored_from list_by_scope get_setting
    same_id validate accepts within lookup insert remove merge mask alter
set_global-keeps_password_example =
    set_global-keeps_password json plain stored_password "u2" change shown (words "hunter2")
      json-LoadsBack plain-KeepsAccepted refl refl refl refl

set_global-get_global_example :
    get_global json plain (set_global json plain change "u2" stored_password).1 ≡ ok shown
unfolding set_global get_global load_tier real_smtp_password stored_from list_by_scope get_setting
    same_id validate accepts within lookup insert remove merge mask alter one_row_each
set_global-get_global_example =
    set_global-get_global json json-LoadsBack plain plain-KeepsAccepted stored_password "u2" change
      shown refl refl

abbrev user_change : Dict Value
user_change = ("theme", words "dark") ∷ []

abbrev loaded_global : Dict Value
loaded_global = value_or [] (get_global json plain stored_password)

abbrev loaded_tenant : Dict Value
loaded_tenant = value_or [] (get_tenant json plain "t1" stored_password)

abbrev loaded_user : Dict Value
loaded_user = value_or [] (get_user json plain "u1" stored_password)

loaded-IsTyped_example :
    IsTyped global_settings loaded_global
    × IsTyped tenant_settings loaded_tenant
    × IsTyped user_settings loaded_user
unfolding get_global get_tenant get_user load_tier stored_from list_by_scope get_setting same_id
    validate accepts within lookup insert remove mask alter
loaded-IsTyped_example =
    loaded-IsTyped plain plain-KeepsAccepted json stored_password "t1" "u1" loaded_global
      loaded_tenant loaded_user refl refl refl
