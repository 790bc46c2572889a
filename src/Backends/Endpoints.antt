-- ===== src/Backends/Endpoints.antt =====
-- The endpoints of scottycore/api/v1/ai_backends.py after their check of the caller.
use fastapi_modular_template.Tasks.{ℤ, pos}
use fastapi_modular_template.Base.{
  String, Bool, false, Option, none, some, List, [], ◌∷◌, ◌==◌, if◌then◌else◌, Dict, Result, ok,
  err,
}
use fastapi_modular_template.Settings.Schemas.{AiEndpointSetting, Value, Coercion, endpoint}
use fastapi_modular_template.Settings.Rows.{Setting}
use fastapi_modular_template.Settings.Service.{Json, get_global, set_global}
use fastapi_modular_template.Backends.{
  provider_value, EndpointConfig, Endpoints, BackendConfig, endpoint_at, load_from_settings,
}
use fastapi_modular_template.Backends.Reach.{
  World, Cache, BackendStatus, resolve_provider, check_all_health,
}

abbrev pub ai_api_key_masked : String
ai_api_key_masked = "*****"

-- The fields of an endpoint that a body gives
pub record Card : Type 0 where
  pub url : Option String
  pub model : Option String
  pub api_key : Option String
  pub enabled : Option Bool
  pub context_window : Option ℤ
  pub priority : Option ℤ
  pub notes : Option String

pub data Given : Type 0 where
  value : Value → Given
  card : Card → Given

abbrev pub or_default {ℓ} : {A : Type ℓ} → A → Option A → A
or_default default none = default
or_default default (some a) = a

-- `AIEndpointSetting(**fields)`: a field that is not given has its default.
unfoldable pub complete : Card → AiEndpointSetting
complete c = record {
  url = or_default "" c.url;
  model = or_default "" c.model;
  api_key = or_default "" c.api_key;
  enabled = or_default false c.enabled;
  context_window = or_default (pos 0) c.context_window;
  priority = or_default (pos 0) c.priority;
  notes = or_default "" c.notes;
}

abbrev pub without_mask : Option String → Option String
without_mask none = none
without_mask (some k) = if k == ai_api_key_masked then none else some k

unfoldable pub strip_masked : Given → Value
strip_masked (value v) = v
strip_masked (card c) = endpoint (complete (record c { api_key = without_mask c.api_key }))

unfoldable pub body_of : Dict Given → Dict Value
body_of [] = []
body_of ((key, g) ∷ more) = (key, strip_masked g) ∷ body_of more

module _ {J : Type 0} (json : Json J) (coerce : Coercion) (environ : String → String) where
  -- The settings are there with the change even where the reloading raises.
  unfoldable pub ai_config_save :
      Dict Given
      → String
      → List (Setting J) × BackendConfig
      → Result (Unit {0}) × List (Setting J) × BackendConfig
  ai_config_save body user_id (settings, config) =
      let saved = set_global json coerce (body_of body) user_id settings in
      elim saved.0 [
        | err e ↦ (err e, saved.1, config)
        | ok shown ↦
            elim (load_from_settings environ (some (get_global json coerce saved.1)) config) [
              | err e ↦ (err e, saved.1, config)
              | ok loaded ↦ (ok tt, saved.1, loaded)
            ]
      ]

  module _ (world : World) (settings : List (Setting J)) where
    unfoldable pub ai_health : BackendConfig → Cache → Result BackendStatus × Cache
    ai_health config cache =
        elim (load_from_settings environ (some (get_global json coerce settings)) config) [
          | err e ↦ (err e, cache)
          | ok loaded ↦ (
            ok (check_all_health world loaded.endpoints cache).0,
            (check_all_health world loaded.endpoints cache).1,
          )
        ]

    -- The provider that was resolved, its model and its URL
    unfoldable pub ai_resolve :
        String → BackendConfig → Cache → Result (String × String × String) × Cache
    ai_resolve provider config cache =
        elim (load_from_settings environ (some (get_global json coerce settings)) config) [
          | err e ↦ (err e, cache)
          | ok loaded ↦ elim (resolve_provider world provider loaded cache).0 [
            | err e ↦ (err e, (resolve_provider world provider loaded cache).1)
            | ok p ↦ (
              ok (elim (endpoint_at p loaded.endpoints) [
                | none ↦ (provider_value p, "", "")
                | some e ↦ (provider_value p, e.model, e.url)
              ]),
              (resolve_provider world provider loaded cache).1,
            )
          ]
        ]

abbrev mask_key : EndpointConfig → EndpointConfig
mask_key e = if e.api_key == "" then e else record e { api_key = ai_api_key_masked }

-- The endpoints that `ai_config` shows
unfoldable pub ai_config : Endpoints → List (String × EndpointConfig)
ai_config [] = []
ai_config ((p, e) ∷ more) = (provider_value p, mask_key e) ∷ ai_config more
