-- ===== src/Auth/Endpoints.antt =====
-- The endpoints `login`, `initial_setup`, `totp_enable`, `totp_verify` and `totp_disable` of
-- scottycore/api/v1/auth.py. Times are in seconds.
pub mod SecondStep
use fastapi_modular_template.Base.{
  ℕ, String, false, not, none, some, ltb, if◌then◌else◌, length, cut_prefix, truthy, Result,
  authentication_error, ok, err,
}
use fastapi_modular_template.Users.{UserDb}
use fastapi_modular_template.Users.Service.{Passwords, create_superadmin}
use fastapi_modular_template.Auth.Tokens.{create_access_token, decode_token}
use fastapi_modular_template.Auth.Totp.{Codes, verify_totp, disable_totp}
use fastapi_modular_template.Auth.Login.{AuthEnv}

-- Creates the first superadmin, if there is no user yet.
unfoldable pub initial_setup :
    Passwords → String → String → String → String → UserDb → Result String × UserDb
initial_setup passwords salt new_id email password db =
    if ltb 0 (length db.users)
    then (err (authentication_error "Setup already completed"), db)
    else create_superadmin passwords salt new_id email password "Admin" db

-- The claims of the partial token in `Authorization: Bearer …`
unfoldable pub partial_claims : AuthEnv → ℕ → String → Result String
partial_claims env now auth_header = elim (cut_prefix "Bearer " auth_header) [
  | none ↦ err (authentication_error "Partial token required in Authorization header")
  | some token ↦ elim (decode_token env.jwt now token) [
    | err e ↦ err (authentication_error "Invalid or expired partial token")
    | ok claims ↦
        if not claims.totp_pending
        then err (authentication_error "Token is not a TOTP partial token")
        else elim (truthy claims.sub) [
          | none ↦ err (authentication_error "Invalid token: no subject")
          | some user_id ↦ ok user_id
        ]
  ]
]

-- Exchanges a partial token and a code for an access token.
unfoldable pub totp_verify : AuthEnv → Codes → ℕ → String → String → UserDb → Result String × UserDb
totp_verify env codes now auth_header code db = elim (partial_claims env now auth_header) [
  | err e ↦ (err e, db)
  | ok user_id ↦
      let (verified, db') = verify_totp env.passwords codes user_id code db in
      if not verified
      then (err (authentication_error "Invalid verification code"), db')
      else (ok (create_access_token env.jwt env.expire_minutes now user_id false 0), db')
]

unfoldable pub totp_disable :
    AuthEnv → Codes → String → String → UserDb → Result (Unit {0}) × UserDb
totp_disable env codes user_id code db =
    let (verified, db') = verify_totp env.passwords codes user_id code db in
    if not verified
    then (err (authentication_error "Invalid verification code"), db')
    else disable_totp user_id db'
