-- ===== src/Auth/Resolve.antt =====
-- The identity of a request: `get_current_user`, its helpers and the dependencies `require_auth`,
-- `require_superadmin` and `require_role` of scottycore/core/auth.py. Times are in seconds.
pub mod Sessions
pub mod Access
use fastapi_modular_template.Base.{
  ℕ, ◌+◌, ◌*◌, String, Bool, true, false, not, ◌&&◌, Option, none, some, List, [], ◌∷◌, ◌==◌, ltb,
  if◌then◌else◌, elem, ◌⧺◌, cut_prefix, truthy, lookup, Error, Result, ◌>>=◌, authentication_error,
  forbidden_error, other_error, ok, err,
}
use fastapi_modular_template.Roles.{role_value, RoleName, admin, has_minimum_role, UserContext}
use fastapi_modular_template.Tenants.{Tenant, verify_api_key}
use fastapi_modular_template.Users.{User, UserDb, user_by_id, user_by_email}
use fastapi_modular_template.Users.Service.{
  Passwords, create_superadmin, create_external_user, promote_to_superadmin, build_user_context,
  external_auth_sentinel,
}
use fastapi_modular_template.Auth.Tokens.{Claims, Jwt, decode_token}

-- The headers, cookies and query parameters that are read; absent ones are None.
pub record Request : Type 0 where
  pub cf_email : Option String
  pub azure_email : Option String
  pub session_cookie : Option String
  pub authorization : Option String
  pub x_api_key : Option String
  pub dev_token_query : Option String
  pub dev_token_header : Option String

-- The settings that are read; `session_timeout` is what the settings store resolves for
-- `session_timeout_minutes`, None also where it raises.
pub record Settings : Type 0 where
  pub trusted_providers : List String
  pub admin_email : String
  pub dev_bypass_token : String
  pub jwt_access_token_expire_minutes : ℕ
  pub session_timeout : Option ℕ

-- The libraries: `str.lower`, `str.strip`, the name made from an email, bcrypt, SHA-256, JWT.
pub record Libraries : Type 0 where
  pub lower : String → String
  pub strip : String → String
  pub title_of : String → String
  pub passwords : Passwords
  pub digest : String → String
  pub jwt : Jwt

-- The salt and the identifier that a new user draws.
pub record Fresh : Type 0 where
  pub salt : String
  pub new_id : String

-- `payload.get("sv", 0)`
abbrev pub token_sv : Claims → ℕ
token_sv c = elim c.sv [ none ↦ 0 | some v ↦ v ]

abbrev pub dev_bypass_user : UserContext
dev_bypass_user = record {
  user_id = "00000000-0000-0000-0000-ffffffffffff";
  email = "dev-bypass@localhost";
  display_name = "Dev Bypass (Claude Code)";
  is_superadmin = true;
  totp_enabled = false;
  tenant_roles = [];
}

-- `request.query_params.get("_dev_token") or request.headers.get("X-Dev-Token")`
abbrev pub dev_token : Request → Option String
dev_token req = elim (truthy req.dev_token_query) [
  | some t ↦ some t
  | none ↦ truthy req.dev_token_header
]

-- The token of `Authorization: Bearer …`
abbrev pub bearer : Request → Option String
bearer req = elim (truthy req.authorization) [ none ↦ none | some h ↦ cut_prefix "Bearer " h ]

module _ (libs : Libraries) (settings : Settings) where
  -- `settings.admin_email and email == settings.admin_email.strip().lower()`
  unfoldable pub is_admin_email : String → Bool
  is_admin_email email =
      not (settings.admin_email == "") && email == libs.lower (libs.strip settings.admin_email)

  unfoldable pub provision : Fresh → String → UserDb → UserDb
  provision fresh email db =
      if is_admin_email email
      then (create_superadmin libs.passwords fresh.salt fresh.new_id email external_auth_sentinel
          (libs.title_of email) db).1
      else create_external_user libs.passwords fresh.salt fresh.new_id email (libs.title_of email)
          db

  -- The user is read before the promotion, and the context is built from what was read.
  unfoldable pub promote_and_build : List Tenant → String → User → UserDb → UserContext × UserDb
  promote_and_build tenants email user_read db =
      let db' =
        if is_admin_email email && not user_read.is_superadmin
        then promote_to_superadmin email db
        else db in
      (build_user_context tenants db' user_read, db')

  unfoldable pub resolve_external_user :
      Fresh → List Tenant → String → UserDb → Result (Option UserContext) × UserDb
  resolve_external_user fresh tenants email db = elim (user_by_email email db.users) [
    | some user_read ↦
        let (ctx, db') = promote_and_build tenants email user_read db in (ok (some ctx), db')
    | none ↦
        let db₁ = provision fresh email db in
        elim (user_by_email email db₁.users) [
          | none ↦ (err (other_error "provision"), db₁)
          | some user_read ↦
              let (ctx, db') = promote_and_build tenants email user_read db₁ in (ok (some ctx), db')
        ]
  ]

  abbrev pub timeout_minutes : ℕ
  timeout_minutes = elim settings.session_timeout [
    | none ↦ settings.jwt_access_token_expire_minutes
    | some n ↦ n
  ]

  abbrev pub is_expired : ℕ → Option ℕ → Bool
  is_expired now none = false
  is_expired now (some iat) = ltb (iat + timeout_minutes * 60) now

  -- The user of a token whose claims have passed.
  unfoldable pub resolve_session :
      List Tenant → UserDb → Claims → Option User → Result (Option UserContext)
  resolve_session tenants db claims none = err (authentication_error "User not found or inactive")
  resolve_session tenants db claims (some u) =
      if not u.is_active
      then err (authentication_error "User not found or inactive")
      else if ltb (token_sv claims) u.session_version
      then err (authentication_error "Session invalidated")
      else ok (some (build_user_context tenants db u))

  unfoldable pub resolve_claims : ℕ → List Tenant → UserDb → Claims → Result (Option UserContext)
  resolve_claims now tenants db claims =
      if claims.totp_pending
      then err (forbidden_error "TOTP verification required")
      else elim (truthy claims.sub) [
        | none ↦ err (authentication_error "Invalid token: no subject")
        | some user_id ↦
            if is_expired now claims.iat
            then err (authentication_error "Session expired")
            else resolve_session tenants db claims (user_by_id user_id db.users)
      ]

  unfoldable pub resolve_jwt_user : ℕ → List Tenant → UserDb → String → Result (Option UserContext)
  resolve_jwt_user now tenants db token = do
    claims ← decode_token libs.jwt now token
    resolve_claims now tenants db claims

  unfoldable pub resolve_api_key_user : List Tenant → String → Result (Option UserContext)
  resolve_api_key_user tenants api_key =
      elim (verify_api_key libs.passwords.verify libs.digest api_key tenants) [
        | none ↦ err (authentication_error "Invalid API key")
        | some tenant ↦ ok (
            some (record {
              user_id = "00000000-0000-0000-0000-000000000000";
              email = "api@" ⧺ tenant.slug;
              display_name = "API (" ⧺ tenant.name ⧺ ")";
              is_superadmin = false;
              totp_enabled = false;
              tenant_roles = (tenant.slug, admin) ∷ [];
            }))
      ]

  unfoldable pub resolve_dev_bypass : Request → Result (Option UserContext)
  resolve_dev_bypass req =
      if settings.dev_bypass_token == "" then ok none else elim (dev_token req) [
        | none ↦ ok none
        | some t ↦ ok (if t == settings.dev_bypass_token then some dev_bypass_user else none)
      ]

  -- The value of a header of a trusted provider.
  abbrev pub trusted : String → Option String → Option String
  trusted provider header = if elem provider settings.trusted_providers then truthy header else none

  -- Steps 3 to 7: no step of these changes the database.
  unfoldable pub resolve_credentials :
      ℕ → List Tenant → UserDb → Request → Result (Option UserContext)
  resolve_credentials now tenants db req = elim (truthy req.session_cookie) [
    | some cookie ↦ resolve_jwt_user now tenants db cookie
    | none ↦ elim (bearer req) [
      | some token ↦ resolve_jwt_user now tenants db token
      | none ↦ elim (truthy req.x_api_key) [
        | some key ↦ resolve_api_key_user tenants key
        | none ↦ resolve_dev_bypass req
      ]
    ]
  ]

  unfoldable pub get_current_user :
      ℕ → Fresh → List Tenant → UserDb → Request → Result (Option UserContext) × UserDb
  get_current_user now fresh tenants db req = elim (trusted "cloudflare" req.cf_email) [
    | some email ↦ resolve_external_user fresh tenants (libs.lower (libs.strip email)) db
    | none ↦ elim (trusted "azure" req.azure_email) [
      | some email ↦ resolve_external_user fresh tenants (libs.lower (libs.strip email)) db
      | none ↦ (resolve_credentials now tenants db req, db)
    ]
  ]

unfoldable pub require_auth : Option UserContext → Result UserContext
require_auth none = err (authentication_error "Authentication required")
require_auth (some user) = ok user

unfoldable pub require_superadmin : Option UserContext → Result UserContext
require_superadmin user = do
  u ← require_auth user
  if u.is_superadmin then ok u else err (forbidden_error "Superadmin access required")

abbrev pub role_error : RoleName → String → Error
role_error minimum slug =
    forbidden_error ("Requires " ⧺ role_value minimum ⧺ " role for tenant '" ⧺ slug ⧺ "'")

-- `slug` is the path parameter.
unfoldable pub require_role : RoleName → Option String → Option UserContext → Result UserContext
require_role minimum slug user = do
  u ← require_auth user
  if u.is_superadmin then ok u else elim (truthy slug) [
    | none ↦ err (forbidden_error "No tenant context")
    | some s ↦ elim (lookup s u.tenant_roles) [
      | none ↦ err (role_error minimum s)
      | some role ↦ if has_minimum_role role minimum then ok u else err (role_error minimum s)
    ]
  ]
