-- ===== src/Tenants.antt =====
-- The tenants that authentication reads: scottycore/services/tenants/models.py, the lookups of
-- scottycore/services/tenants/repository.py and `get_by_id`, `verify_api_key` and `rotate_api_key`
-- of scottycore/services/tenants/service.py.
pub mod Service
pub mod Slugs
use fastapi_modular_template.Base.{
  String, Bool, false, not, ◌&&◌, Option, none, some, List, [], ◌∷◌, ◌==◌, if◌then◌else◌, Result,
  not_found_error, ok, err,
}

pub record Tenant : Type 0 where
  pub id : String
  pub name : String
  pub slug : String
  pub api_key_hash : Option String
  pub api_key_prefix : Option String
  pub is_active : Bool

unfoldable pub tenant_by_id : String → List Tenant → Option Tenant
tenant_by_id id [] = none
tenant_by_id id (t ∷ ts) = if t.id == id then some t else tenant_by_id id ts

unfoldable pub tenant_by_slug : String → List Tenant → Option Tenant
tenant_by_slug slug [] = none
tenant_by_slug slug (t ∷ ts) = if t.slug == slug then some t else tenant_by_slug slug ts

abbrev has_prefix : String → Tenant → Bool
has_prefix prefix t = elim t.api_key_prefix [ none ↦ false | some p ↦ p == prefix ]

unfoldable pub tenant_by_api_key_prefix : String → List Tenant → Option Tenant
tenant_by_api_key_prefix prefix [] = none
tenant_by_api_key_prefix prefix (t ∷ ts) =
    if has_prefix prefix t then some t else tenant_by_api_key_prefix prefix ts

unfoldable pub get_tenant : String → List Tenant → Result Tenant
get_tenant id tenants = elim (tenant_by_id id tenants) [
  | none ↦ err (not_found_error "Tenant")
  | some t ↦ ok t
]

-- `verify` is bcrypt's check of a key against a hash, `digest` the first 16 hexadecimal digits of
-- SHA-256.
unfoldable pub verify_api_key :
    (String → String → Bool) → (String → String) → String → List Tenant → Option Tenant
verify_api_key verify digest api_key tenants =
    elim (tenant_by_api_key_prefix (digest api_key) tenants) [
      | none ↦ none
      | some t ↦ elim t.api_key_hash [
        | none ↦ none
        | some hashed ↦ if not (hashed == "") && verify api_key hashed then some t else none
      ]
    ]

unfoldable pub update_tenants : String → (Tenant → Tenant) → List Tenant → List Tenant
update_tenants id f [] = []
update_tenants id f (t ∷ ts) = (if t.id == id then f t else t) ∷ update_tenants id f ts

-- `raw_key` is `secrets.token_urlsafe(32)`, `hashed` its bcrypt hash.
unfoldable pub rotate_api_key :
    (String → String) → String → String → String → List Tenant → Result String × List Tenant
rotate_api_key digest raw_key hashed slug tenants = elim (tenant_by_slug slug tenants) [
  | none ↦ (err (not_found_error "Tenant"), tenants)
  | some tenant ↦ (
    ok raw_key,
    update_tenants tenant.id
        (λ t. record t { api_key_hash = some hashed; api_key_prefix = some (digest raw_key) })
        tenants,
  )
]
