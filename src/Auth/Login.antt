-- ===== src/Auth/Login.antt =====
-- `login` of scottycore/services/auth/service.py.
pub mod Outcome
use fastapi_modular_template.Base.{
  ℕ, String, Bool, true, false, not, ◌&&◌, Option, none, some, List, ◌==◌, if◌then◌else◌, Error,
  Result, authentication_error, ok, err,
}
use fastapi_modular_template.Users.{User, UserDb, user_by_email}
use fastapi_modular_template.Users.Service.{Passwords}
use fastapi_modular_template.Auth.Lockout.{LoginAttempt, record_login_attempt, check_lockout}
use fastapi_modular_template.Auth.Tokens.{Jwt, create_access_token}

pub data LoginResponse : Type 0 where
  full_token : String → LoginResponse
  partial_token : String → LoginResponse

-- The libraries and settings that the service calls: `str.lower` and `str.strip`, bcrypt, the JWT
-- library, and `jwt_access_token_expire_minutes`.
pub record AuthEnv : Type 0 where
  pub lower : String → String
  pub strip : String → String
  pub passwords : Passwords
  pub jwt : Jwt
  pub expire_minutes : ℕ

abbrev pub generic_error : Error
generic_error = authentication_error "Invalid email or password"

-- `get_password_hash` and the check of the password
unfoldable pub password_matches : Passwords → String → Option User → Bool
password_matches passwords password none = false
password_matches passwords password (some u) =
    not (u.password_hash == "") && passwords.verify password u.password_hash

abbrev pub is_usable : Option User → Bool
is_usable none = false
is_usable (some u) = u.is_active

unfoldable pub issue_token : AuthEnv → ℕ → Option User → Result LoginResponse
issue_token env now none = err generic_error
issue_token env now (some u) = ok (
    if u.totp_enabled
    then partial_token
        (create_access_token env.jwt env.expire_minutes now u.id true u.session_version)
    else full_token
        (create_access_token env.jwt env.expire_minutes now u.id false u.session_version))

unfoldable pub login :
    AuthEnv
    → ℕ
    → String
    → String
    → String
    → UserDb
    → List LoginAttempt
    → Result LoginResponse × List LoginAttempt
login env now email password ip_address db attempts =
    let email_lower = env.lower (env.strip email) in
    let failed = record_login_attempt env.lower now email_lower false ip_address attempts in
    let user = user_by_email email_lower db.users in
    if check_lockout env.lower now email_lower attempts
    then (err generic_error, failed)
    else if not (password_matches env.passwords password user)
    then (err generic_error, failed)
    else if not (is_usable user)
    then (err generic_error, failed)
    else (
      issue_token env now user,
      record_login_attempt env.lower now email_lower true ip_address attempts,
    )
