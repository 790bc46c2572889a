-- ===== src/Tests/BackendCases.antt =====
-- The theorems on the AI backends at concrete inputs. JSON is the values themselves here.
use fastapi_modular_template.Base.{
  String, ◌≡◌, refl, true, none, some, [], ◌∷◌, ◌==◌, if◌then◌else◌, Dict, lookup, insert, remove,
  alter, ok,
}
use fastapi_modular_template.Settings.Schemas.{Value, Coercion, validate, within, accepts, endpoint}
use fastapi_modular_template.Settings.Rows.{list_by_scope, get_setting, same_id, upsert}
use fastapi_modular_template.Settings.Loading.{one_row_each}
use fastapi_modular_template.Settings.Validation.{distinct}
use fastapi_modular_template.Settings.Service.{
  Json, stored_from, merge, mask, load_tier, get_global, real_smtp_password, set_global, upsert_all,
}
use fastapi_modular_template.Backends.{
  ollama, BackendConfig, endpoint_at, build_default_config, baseline_endpoints, load_from_settings,
  provider_of, providers_of, from_environment, change_endpoint,
}
use fastapi_modular_template.Backends.Reach.{World, rstrip_slash, raised, models, resolve_provider}
use fastapi_modular_template.Backends.Chosen.{first_usable, resolve_provider-first}
use fastapi_modular_template.Backends.Endpoints.{
  Card, Given, card, complete, strip_masked, body_of, ai_config_save,
}
use fastapi_modular_template.Backends.Saved.{masked_key_erased}

abbrev json : Json Value
json = record { dumps = λ v. v; loads = λ v. ok v }

abbrev plain : Coercion
plain = λ kind v. v

abbrev environ : String → String
environ = λ name. if name == "OPENAI_API_KEY" then "sk-1" else ""

-- The first host is down.
abbrev world : World
world = record {
  get = λ url.
      if url == "http://192.168.150.111:11434/api/tags"
      then raised "timed out"
      else models ("qwen" ∷ []);
  size_vram = λ url. none;
  claude_on_path = true;
  now = 100;
}

abbrev config : BackendConfig
config = build_default_config environ

abbrev masked_card : Card
masked_card = record {
  url = none;
  model = some "gpt-4o";
  api_key = some "*****";
  enabled = some true;
  context_window = none;
  priority = none;
  notes = none;
}

abbrev body : Dict Given
body = ("ai_endpoint_openai", card masked_card) ∷ []

resolve_provider-first_example : (resolve_provider world "dgx" config []).0 ≡ ok ollama
unfolding provider_of build_default_config from_environment change_endpoint baseline_endpoints
    endpoint_at lookup first_usable rstrip_slash
resolve_provider-first_example = resolve_provider-first world "dgx" config []

masked_key_erased_example :
    (shown : Dict Value) × (get_global json plain
        (ai_config_save json plain environ body "u1" ([], config)).1
      ≡ ok shown)
    × (lookup "ai_endpoint_openai" shown
        ≡ some (endpoint (record (complete masked_card) { api_key = "" })))
unfolding one_row_each distinct body_of strip_masked complete ai_config_save load_from_settings
    provider_of providers_of set_global get_global load_tier real_smtp_password stored_from
    list_by_scope get_setting same_id validate accepts within lookup insert remove merge mask alter
    upsert_all upsert
masked_key_erased_example =
    masked_key_erased json (λ v. refl) plain (λ kind v h. refl) environ [] config "u1"
      "ai_endpoint_openai" body masked_card refl refl refl refl refl refl
