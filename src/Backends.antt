-- ===== src/Backends.antt =====
-- The AI backends: scottycore/services/ai_backends/schemas.py, and the configuration that
-- scottycore/services/ai_backends/service.py builds from the environment and the settings.
pub mod Reach
pub mod Chosen
pub mod Endpoints
pub mod Saved
pub mod Environment
use fastapi_modular_template.Tasks.{ℤ, pos, negsuc}
use fastapi_modular_template.Base.{
  ℕ, String, Bool, true, false, ◌||◌, Option, none, some, List, [], ◌∷◌, ◌==◌, eqb, if◌then◌else◌,
  Dict, lookup, Result, value_error, ok, err, ◌>>=◌,
}
use fastapi_modular_template.Settings.Schemas.{AiEndpointSetting, Value, words, several, endpoint}

-- `AIProviderName`
pub data Provider : Type 0 where
  claude_cli claude_api ollama dgx openai azure_openai custom : Provider

abbrev pub provider_value : Provider → String
provider_value claude_cli = "claude_cli"
provider_value claude_api = "claude_api"
provider_value ollama = "ollama"
provider_value dgx = "dgx"
provider_value openai = "openai"
provider_value azure_openai = "azure_openai"
provider_value custom = "custom"

abbrev number_of : Provider → ℕ
number_of claude_cli = 0
number_of claude_api = 1
number_of ollama = 2
number_of dgx = 3
number_of openai = 4
number_of azure_openai = 5
number_of custom = 6

abbrev pub same_provider : Provider → Provider → Bool
same_provider p q = eqb (number_of p) (number_of q)

-- `AIProviderName(text)`
unfoldable pub provider_of : String → Result Provider
provider_of s =
    if s == "claude_cli"
    then ok claude_cli
    else if s == "claude_api"
    then ok claude_api
    else if s == "ollama"
    then ok ollama
    else if s == "dgx"
    then ok dgx
    else if s == "openai"
    then ok openai
    else if s == "azure_openai"
    then ok azure_openai
    else if s == "custom"
    then ok custom
    else err (value_error "not a valid AIProviderName")

unfoldable pub providers_of : List String → Result (List Provider)
providers_of [] = ok []
providers_of (s ∷ more) = elim (provider_of s) [
  | err e ↦ err e
  | ok p ↦ elim (providers_of more) [ err e ↦ err e | ok ps ↦ ok (p ∷ ps) ]
]

pub record EndpointConfig : Type 0 where
  pub url : String
  pub model : String
  pub api_key : String
  pub enabled : Bool
  pub context_window : ℤ
  pub priority : ℤ
  pub notes : String

-- An endpoint stands under its own provider.
abbrev pub Endpoints : Type 0
Endpoints = List (Provider × EndpointConfig)

pub record BackendConfig : Type 0 where
  pub default_provider : Provider
  pub fallback_chain : List Provider
  pub endpoints : Endpoints

-- `endpoints.get(provider)`
unfoldable pub endpoint_at : Provider → Endpoints → Option EndpointConfig
endpoint_at p [] = none
endpoint_at p ((q, e) ∷ more) = if same_provider q p then some e else endpoint_at p more

-- A change of an endpoint that is there
unfoldable pub change_endpoint :
    Provider → (EndpointConfig → EndpointConfig) → Endpoints → Endpoints
change_endpoint p f [] = []
change_endpoint p f ((q, e) ∷ more) =
    (q, if same_provider q p then f e else e) ∷ change_endpoint p f more

abbrev baseline : String → String → Bool → ℕ → ℕ → String → EndpointConfig
baseline url model enabled context_window priority notes = record {
  url = url;
  model = model;
  api_key = "";
  enabled = enabled;
  context_window = pos context_window;
  priority = pos priority;
  notes = notes;
}

unfoldable pub baseline_endpoints : Endpoints
baseline_endpoints =
    (
      claude_cli,
      baseline "" "opus" true 200000 30
          "Uses host Claude Code auth. No API key needed. Always available.",
    )
    ∷ (
      dgx,
      baseline "http://192.168.150.111:11434" "qwen3.5:35b-a3b" true 131072 10
          "DGX Spark on homelab. MoE model: 3B active params, ~55-70 tok/s.",
    )
    ∷ (
      ollama,
      baseline "http://192.168.150.210:11434" "qwen2.5:7b" true 32768 20
          "Local Ollama on CT 114 (GPU passthrough).",
    )
    ∷ (
      claude_api,
      baseline "" "claude-sonnet-4-6" false 200000 40
          "Anthropic SDK direct. Needs API key or Claude Code OAuth token.",
    )
    ∷ (
      openai,
      baseline "https://api.openai.com/v1" "gpt-4o" false 128000 50
          "OpenAI API. Needs OPENAI_API_KEY.",
    )
    ∷ (
      azure_openai,
      baseline "" "" false 128000 50
          "Azure OpenAI Service. Needs AZURE_OPENAI_ENDPOINT + AZURE_OPENAI_KEY.",
    )
    ∷ []

-- The field that a variable of the environment sets; a URL and a key enable the endpoint too.
pub data EnvField : Type 0 where
  the_url the_model the_api_key : EnvField

abbrev pub set_field : EnvField → String → EndpointConfig → EndpointConfig
set_field the_url value e = record e { url = value; enabled = true }
set_field the_model value e = record e { model = value }
set_field the_api_key value e = record e { api_key = value; enabled = true }

abbrev pub env_map : List (String × Provider × EnvField)
env_map =
    ("OLLAMA_URL", ollama, the_url)
    ∷ ("OLLAMA_MODEL_CHAT", ollama, the_model)
    ∷ ("DGX_OLLAMA_URL", dgx, the_url)
    ∷ ("DGX_OLLAMA_MODEL", dgx, the_model)
    ∷ ("OPENAI_API_KEY", openai, the_api_key)
    ∷ ("AZURE_OPENAI_ENDPOINT", azure_openai, the_url)
    ∷ ("AZURE_OPENAI_KEY", azure_openai, the_api_key)
    ∷ ("ANTHROPIC_API_KEY", claude_api, the_api_key)
    ∷ []

-- `environ` is `os.environ.get` with the empty text for a variable that is not there.
unfoldable pub from_environment :
    (String → String) → List (String × Provider × EnvField) → Endpoints → Endpoints
from_environment environ [] endpoints = endpoints
from_environment environ ((name, provider, field) ∷ more) endpoints =
    from_environment environ more (
      if environ name == ""
      then endpoints
      else change_endpoint provider (set_field field (environ name)) endpoints)

unfoldable pub build_default_config : (String → String) → BackendConfig
build_default_config environ = record {
  default_provider = claude_cli;
  fallback_chain = dgx ∷ ollama ∷ claude_cli ∷ [];
  endpoints = from_environment environ env_map baseline_endpoints;
}

-- `a or b`, as `if a:` chooses
abbrev text_or : String → String → String
text_or new old = if new == "" then old else new

abbrev count_or : ℤ → ℤ → ℤ
count_or (pos n) old = if eqb n 0 then old else pos n
count_or (negsuc n) old = negsuc n

unfoldable pub layer : AiEndpointSetting → EndpointConfig → EndpointConfig
layer setting e = record {
  url = text_or setting.url e.url;
  model = text_or setting.model e.model;
  api_key = text_or setting.api_key e.api_key;
  enabled = setting.enabled;
  context_window = count_or setting.context_window e.context_window;
  priority = count_or setting.priority e.priority;
  notes = text_or setting.notes e.notes;
}

abbrev pub setting_map : List (Provider × String)
setting_map =
    (ollama, "ai_endpoint_ollama")
    ∷ (dgx, "ai_endpoint_dgx")
    ∷ (claude_cli, "ai_endpoint_claude_cli")
    ∷ (claude_api, "ai_endpoint_claude_api")
    ∷ (openai, "ai_endpoint_openai")
    ∷ (azure_openai, "ai_endpoint_azure_openai")
    ∷ []

-- An endpoint of the settings, under its key
unfoldable pub layered : Dict Value → List (Provider × String) → Endpoints → Endpoints
layered settings [] endpoints = endpoints
layered settings ((provider, key) ∷ more) endpoints =
    layered settings more (elim (lookup key settings) [
      | some (endpoint s) ↦ change_endpoint provider (layer s) endpoints
      | _ ↦ endpoints
    ])

abbrev word_at : String → Dict Value → String
word_at key settings = elim (lookup key settings) [ some (words s) ↦ s | _ ↦ "" ]

abbrev texts_at : String → Dict Value → List String
texts_at key settings = elim (lookup key settings) [ some (several l) ↦ l | _ ↦ [] ]

-- From the answer of the settings service on, of which there is none without a service. A service
-- that raises leaves the configuration as it is.
unfoldable pub load_from_settings :
    (String → String) → Option (Result (Dict Value)) → BackendConfig → Result BackendConfig
load_from_settings environ none config = ok config
load_from_settings environ (some (err e)) config = ok config
load_from_settings environ (some (ok settings)) config =
    let built = build_default_config environ in
    elim (provider_of (word_at "ai_default_provider" settings)) [
      | err e ↦ err e
      | ok default ↦ elim (providers_of (texts_at "ai_fallback_chain" settings)) [
        | err e ↦ err e
        | ok chain ↦ ok (record {
          default_provider = default;
          fallback_chain = chain;
          endpoints = layered settings setting_map built.endpoints;
        })
      ]
    ]
