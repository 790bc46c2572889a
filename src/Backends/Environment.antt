-- ===== src/Backends/Environment.antt =====
-- What loading the settings leaves of the environment's variables.
use fastapi_modular_template.Base.{
  String, ◌≡◌, refl, ◌∙◌, inl, inr, Bool, true, false, Option, none, some, List, [], ◌∷◌, arith,
  ◌==◌, if◌then◌else◌, is_some, Option-cases, Bool-cases, lookup, alter, ok,
}
use mathlib.Core.Option
use fastapi_modular_template.Settings.Schemas.{AiEndpointSetting, Coercion, validate}
use fastapi_modular_template.Settings.Rows.{list_by_scope}
use fastapi_modular_template.Settings.Service.{Json, get_global, load_tier, stored_from, mask}
use fastapi_modular_template.Backends.{
  Provider, claude_cli, claude_api, ollama, dgx, openai, azure_openai, custom, same_provider,
  EndpointConfig, Endpoints, BackendConfig, EnvField, endpoint_at, change_endpoint,
  baseline_endpoints, env_map, from_environment, build_default_config, set_field, layer, layered,
  load_from_settings, provider_of, providers_of,
}

endpoint_at-change :
    (p q : Provider) (f : EndpointConfig → EndpointConfig) (endpoints : Endpoints)
    → endpoint_at q (change_endpoint p f endpoints) ≡ (
        if same_provider p q
        then Option.map f (endpoint_at q endpoints)
        else endpoint_at q endpoints)
unfolding endpoint_at change_endpoint
endpoint_at-change p q f [] = ground arith
endpoint_at-change p q f ((r, e) ∷ more) = ground (arith, endpoint_at-change p q f more)

-- The environment adds no endpoint and takes none away.
from_environment-some :
    (environ : String → String) (l : List (String × Provider × EnvField)) (endpoints : Endpoints)
    (q : Provider)
    → is_some (endpoint_at q (from_environment environ l endpoints))
      ≡ is_some (endpoint_at q endpoints)
unfolding from_environment
from_environment-some environ [] endpoints q = refl
from_environment-some environ ((name, p, field) ∷ more) endpoints q =
    elim (Bool-cases (environ name == "")) [
      | inl unset ↦ rw unset (from_environment-some environ more endpoints q)
      | inr given ↦
          let changed = change_endpoint p (set_field field (environ name)) endpoints in
          rw given (
            from_environment-some environ more changed q
            ∙ ground (arith, endpoint_at-change p q (set_field field (environ name)) endpoints))
    ]

abbrev pub enabled_at : Provider → Endpoints → Option Bool
enabled_at p endpoints = Option.map (λ e. e.enabled) (endpoint_at p endpoints)

abbrev pub url_at : Provider → Endpoints → Option String
url_at p endpoints = Option.map (λ e. e.url) (endpoint_at p endpoints)

-- The six endpoints of the settings, laid over those that are there
module _ (s1 s2 s3 s4 s5 s6 : AiEndpointSetting) (endpoints : Endpoints) where
  abbrev laid_over : Endpoints
  laid_over = change_endpoint azure_openai (layer s6) (
      change_endpoint openai (layer s5) (
        change_endpoint claude_api (layer s4) (
          change_endpoint claude_cli (layer s3)
            (change_endpoint dgx (layer s2) (change_endpoint ollama (layer s1) endpoints)))))

  abbrev setting_of : Provider → Option AiEndpointSetting
  setting_of ollama = some s1
  setting_of dgx = some s2
  setting_of claude_cli = some s3
  setting_of claude_api = some s4
  setting_of openai = some s5
  setting_of azure_openai = some s6
  setting_of custom = none

  at_provider :
      (p : Provider)
      → endpoint_at p laid_over ≡ (elim (setting_of p) [
        | some s ↦ Option.map (layer s) (endpoint_at p endpoints)
        | none ↦ endpoint_at p endpoints
      ])
  at_provider ollama = simp endpoint_at-change
  at_provider dgx = simp endpoint_at-change
  at_provider claude_cli = simp endpoint_at-change
  at_provider claude_api = simp endpoint_at-change
  at_provider openai = simp endpoint_at-change
  at_provider azure_openai = simp endpoint_at-change
  at_provider custom = simp endpoint_at-change

  enabled-laid :
      (p : Provider) (s : AiEndpointSetting)
      → setting_of p ≡ some s
      → is_some (endpoint_at p endpoints) ≡ true
      → enabled_at p laid_over ≡ some s.enabled
  unfolding layer
  enabled-laid p s held there =
      rw (at_provider p, held) (ground (arith, Option-cases (endpoint_at p endpoints)))

  custom-laid : is_some (endpoint_at custom endpoints) ≡ false → enabled_at custom laid_over ≡ none
  custom-laid absent =
      rw (at_provider custom) (ground (arith, Option-cases (endpoint_at custom endpoints)))

  url-laid :
      (p : Provider) (s : AiEndpointSetting)
      → setting_of p ≡ some s
      → is_some (endpoint_at p endpoints) ≡ true
      → (s.url == "") ≡ false
      → url_at p laid_over ≡ some s.url
  unfolding layer
  url-laid p s held there set =
      rw (at_provider p, held) (ground (arith, set, Option-cases (endpoint_at p endpoints)))

module _ {J : Type 0} (json : Json J) (coerce : Coercion) where
  -- Loading from an empty settings table succeeds, and leaves every endpoint enabled or disabled
  -- as in the baseline and the addresses of the Ollama and DGX endpoints those of the baseline,
  -- whatever the environment says.
  empty_settings-override :
      (environ : String → String) (config : BackendConfig)
      → (loaded : BackendConfig) × (load_from_settings environ
            (some (get_global json coerce []))
            config
          ≡ ok loaded)
        × ((p : Provider) → enabled_at p loaded.endpoints ≡ enabled_at p baseline_endpoints)
        × (url_at ollama loaded.endpoints ≡ url_at ollama baseline_endpoints)
        × (url_at dgx loaded.endpoints ≡ url_at dgx baseline_endpoints)
  unfolding load_from_settings get_global load_tier stored_from list_by_scope validate lookup mask
      alter provider_of providers_of build_default_config layered endpoint_at baseline_endpoints
  empty_settings-override environ config =
      let es = from_environment environ env_map baseline_endpoints in
      let there = from_environment-some environ env_map baseline_endpoints in
      (
        _,
        refl,
        (λ p. elim p as (λ q. enabled_at q _ ≡ enabled_at q baseline_endpoints) [
          | claude_cli ↦ enabled-laid _ _ _ _ _ _ es claude_cli _ refl (there claude_cli)
          | claude_api ↦ enabled-laid _ _ _ _ _ _ es claude_api _ refl (there claude_api)
          | ollama ↦ enabled-laid _ _ _ _ _ _ es ollama _ refl (there ollama)
          | dgx ↦ enabled-laid _ _ _ _ _ _ es dgx _ refl (there dgx)
          | openai ↦ enabled-laid _ _ _ _ _ _ es openai _ refl (there openai)
          | azure_openai ↦ enabled-laid _ _ _ _ _ _ es azure_openai _ refl (there azure_openai)
          | custom ↦ custom-laid _ _ _ _ _ _ es (there custom)
        ]),
        url-laid _ _ _ _ _ _ es ollama _ refl (there ollama) refl,
        url-laid _ _ _ _ _ _ es dgx _ refl (there dgx) refl,
      )
