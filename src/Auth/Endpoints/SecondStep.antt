-- ===== src/Auth/Endpoints/SecondStep.antt =====
-- The token that the second step of a two-factor login issues.
use fastapi_modular_template.Base.{
  ℕ, ◌+◌, ◌*◌, ◌≤◌, ◌<◌, String, ◌≡◌, false, some, List, arith, succeeded, ok,
}
use fastapi_modular_template.Auth.Resolve.Sessions.{stale_token_refused}
use fastapi_modular_template.Auth.Tokens.{IsSigned, create_access_token, access_claims}
use fastapi_modular_template.Auth.Resolve.{Libraries, resolve_jwt_user, Settings}
use fastapi_modular_template.Tenants.{Tenant}
use fastapi_modular_template.Users.{User, UserDb, user_by_id}
use fastapi_modular_template.Auth.Login.{AuthEnv}
use fastapi_modular_template.Auth.Totp.{Codes}
use fastapi_modular_template.Auth.Endpoints.{partial_claims, totp_verify}

-- The token that the second step of a two-factor login issues to a user whose session version is
-- above 0 resolves, while it has not expired, to no user, if the token library decodes it.
pub second_step_token_refused :
    (env : AuthEnv) (codes : Codes) (libs : Libraries) (settings : Settings) (tenants : List Tenant)
    → libs.jwt ≡ env.jwt
    → (issued now : ℕ) (auth_header code token user_id : String) (db : UserDb) (u : User)
    → (totp_verify env codes issued auth_header code db).0 ≡ ok token
    → partial_claims env issued auth_header ≡ ok user_id
    → user_by_id user_id db.users ≡ some u
    → 0 < u.session_version
    → IsSigned env.jwt (access_claims env.expire_minutes issued user_id false 0)
    → now ≤ issued + env.expire_minutes * 60
    → succeeded (resolve_jwt_user libs settings now tenants db token) ≡ false
unfolding totp_verify
second_step_token_refused env codes libs settings tenants same issued now auth_header code token
      user_id db u answered claimed found raised signed live =
    let issued_token : token
        ≡ create_access_token env.jwt env.expire_minutes issued user_id false 0 =
      ground (arith, claimed) in
    rw issued_token (
      rw (← same) (
        stale_token_refused libs settings tenants env.expire_minutes issued now db u user_id false 0
          (rw same signed) live found raised))
