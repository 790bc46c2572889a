-- ===== src/Settings/Schemas.antt =====
-- The tiers' schemas: scottycore/services/settings/schemas.py, whose classes are lists of fields
-- here. What pydantic makes of a value before it checks it is a parameter.
use fastapi_modular_template.Base.{
  ℕ, String, Bool, true, false, ◌&&◌, none, some, List, [], ◌∷◌, leb, if◌then◌else◌, elem, Dict,
  lookup, Result, value_error, ok, err,
}
use Prim.Native.String
use fastapi_modular_template.Tasks.{ℤ, pos, negsuc}

pub record AiEndpointSetting : Type 0 where
  pub url : String
  pub model : String
  pub api_key : String
  pub enabled : Bool
  pub context_window : ℤ
  pub priority : ℤ
  pub notes : String

-- A value of a setting
pub data Value : Type 0 where
  null : Value
  flag : Bool → Value
  number : ℤ → Value
  words : String → Value
  several : List String → Value
  endpoint : AiEndpointSetting → Value

pub data FieldType : Type 0 where
  strings string optional_string boolean endpoint_setting : FieldType
  string_up_to : ℕ → FieldType
  integer optional_integer : ℕ → ℕ → FieldType
  one_of : List String → FieldType

pub record Field : Type 0 where
  pub key : String
  pub kind : FieldType
  pub default : Value

-- `ge` and `le`
unfoldable pub within : ℕ → ℕ → ℤ → Bool
within low high (pos n) = leb low n && leb n high
within low high (negsuc n) = false

unfoldable pub accepts : FieldType → Value → Bool
accepts strings (several xs) = true
accepts string (words s) = true
accepts optional_string (words s) = true
accepts optional_string null = true
accepts boolean (flag b) = true
accepts endpoint_setting (endpoint e) = true
accepts (string_up_to n) (words s) = leb (String.count s) n
accepts (integer low high) (number n) = within low high n
accepts (optional_integer low high) (number n) = within low high n
accepts (optional_integer low high) null = true
accepts (one_of options) (words s) = elem s options
accepts _ _ = false

abbrev pub Coercion : Type 0
Coercion = FieldType → Value → Value

-- `Schema(**given)`, as its `model_dump`: a key that no field has is ignored.
unfoldable pub validate : Coercion → List Field → Dict Value → Result (Dict Value)
validate coerce [] given = ok []
validate coerce (f ∷ fs) given = elim (validate coerce fs given) [
  | err e ↦ err e
  | ok rest ↦ elim (lookup f.key given) [
    | none ↦ ok ((f.key, f.default) ∷ rest)
    | some v ↦
        if accepts f.kind (coerce f.kind v)
        then ok ((f.key, coerce f.kind v) ∷ rest)
        else err (value_error "validation error")
  ]
]

abbrev pub smtp_password_masked : String
smtp_password_masked = "*****"

abbrev endpoint_of : String → String → Bool → ℕ → ℕ → String → Value
endpoint_of url model enabled context_window priority notes = endpoint (record {
  url = url;
  model = model;
  api_key = "";
  enabled = enabled;
  context_window = pos context_window;
  priority = pos priority;
  notes = notes;
})

abbrev field : String → FieldType → Value → Field
field key kind default = record { key = key; kind = kind; default = default }

abbrev pub global_settings : List Field
global_settings =
    field "auth_providers" strings (several ("local" ∷ []))
    ∷ field "session_timeout_minutes" (integer 5 1440) (number (pos 15))
    ∷ field "password_min_length" (integer 6 128) (number (pos 8))
    ∷ field "require_totp" boolean (flag true)
    ∷ field "retention_days_default" (integer 1 3650) (number (pos 90))
    ∷ field "branding_app_name" (string_up_to 80) (words "MyApp")
    ∷ field "smtp_host" optional_string null
    ∷ field "smtp_port" (optional_integer 1 65535) null
    ∷ field "smtp_from" optional_string null
    ∷ field "smtp_password" optional_string null
    ∷ field "ai_default_provider" string (words "claude_cli")
    ∷ field "ai_fallback_chain" strings (several ("dgx" ∷ "ollama" ∷ "claude_cli" ∷ []))
    ∷ field "ai_endpoint_ollama" endpoint_setting (
        endpoint_of "http://192.168.150.210:11434" "qwen2.5:7b" true 32768 20
          "Local Ollama on CT 114 (GPU passthrough).")
    ∷ field "ai_endpoint_dgx" endpoint_setting (
        endpoint_of "http://192.168.150.111:11434" "qwen3.5:35b-a3b" true 131072 10
          "DGX Spark on homelab.")
    ∷ field "ai_endpoint_claude_cli" endpoint_setting
        (endpoint_of "" "opus" true 200000 30 "Uses host Claude Code auth. No API key needed.")
    ∷ field "ai_endpoint_claude_api" endpoint_setting (
        endpoint_of "" "claude-sonnet-4-6" false 200000 40
          "Anthropic SDK direct. Needs API key or Claude Code OAuth token.")
    ∷ field "ai_endpoint_openai" endpoint_setting (
        endpoint_of "https://api.openai.com/v1" "gpt-4o" false 128000 50
          "OpenAI API. Needs OPENAI_API_KEY.")
    ∷ field "ai_endpoint_azure_openai" endpoint_setting
        (endpoint_of "" "" false 128000 50 "Azure OpenAI Service. Needs endpoint + key.")
    ∷ []

abbrev pub tenant_settings : List Field
tenant_settings =
    field "retention_days_override" (optional_integer 1 3650) null
    ∷ field "retention_days" (optional_integer 1 3650) null
    ∷ field "notification_email" optional_string null
    ∷ field "custom_field_1" optional_string null
    ∷ field "custom_field_2" optional_string null
    ∷ []

abbrev pub user_settings : List Field
user_settings =
    field "theme" (one_of ("dark" ∷ "light" ∷ "system" ∷ [])) (words "system")
    ∷ field "timezone" string (words "UTC")
    ∷ field "default_tenant" optional_string null
    ∷ field "page_size" (integer 10 200) (number (pos 25))
    ∷ field "notifications_enabled" boolean (flag true)
    ∷ []
