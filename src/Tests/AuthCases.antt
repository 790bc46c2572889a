-- ===== src/Tests/AuthCases.antt =====
-- The theorems on authentication at concrete inputs.
use fastapi_modular_template.Base.{
  ℕ, ◌≤◌, String, ◌≡◌, refl, ◌≢◌, ◌⊎◌, inr, Bool, true, false, none, some, List, [], ◌∷◌, arith,
  ◌==◌, leb, if◌then◌else◌, cut_prefix, truthy, succeeded,
}
use fastapi_modular_template.Auth.Totp.{take_code, verify_totp}
use fastapi_modular_template.Auth.Tokens.Revocation.{revoke-invalid}
use fastapi_modular_template.Auth.Login.Outcome.{login_sound}
use fastapi_modular_template.Auth.Endpoints.SecondStep.{second_step_token_refused}
use fastapi_modular_template.Users.{user_by_id, user_by_email, User}
use fastapi_modular_template.Auth.Lockout.Window.{failures_in_a_row, check_lockout-window}
use fastapi_modular_template.Auth.Totp.OneTime.{backup_code_works_once}
use fastapi_modular_template.Auth.Resolve.Sessions.{change_password-revokes}
use fastapi_modular_template.Users.Service.{build_user_context, change_password}
use fastapi_modular_template.Auth.Lockout.{
  consecutive_failures, sort_desc, check_lockout, recent_attempts, LoginAttempt,
}
use fastapi_modular_template.Base.{truthy}
use fastapi_modular_template.Auth.Resolve.{
  bearer, dev_bypass_user, resolve_jwt_user, Libraries, resolve_claims, dev_token, token_sv,
  resolve_session, resolve_credentials, resolve_dev_bypass,
}
use fastapi_modular_template.Auth.Login.{
  AuthEnv, issue_token, full_token, password_matches, partial_token, login,
}
use fastapi_modular_template.Auth.Endpoints.{totp_verify, partial_claims}
use fastapi_modular_template.Auth.Resolve.Access.{
  IsOfSuperadmin, resolve_jwt_user_sound, superadmin_sound,
}
use fastapi_modular_template.Auth.Tokens.{
  Claims, is_refresh_token_valid, RefreshToken, access_claims, decode_token, revoke_refresh_token,
  create_access_token, Jwt,
}
use fastapi_modular_template.Tests.Data.{
  passwords, jwt_for, IsSigned-jwt_for, ann, db, partial_of_ann, session_of_ann, env_for, libs_for,
  settings, bypass_request, codes,
}

abbrev attempt_of : String → ℕ → Bool → LoginAttempt
attempt_of email at success = record {
  email = email;
  success = success;
  ip_address = "::1";
  attempted_at = at;
}

abbrev five_failures : List LoginAttempt
five_failures =
    attempt_of "ann@example.org" 1000 false
    ∷ attempt_of "ann@example.org" 1010 false
    ∷ attempt_of "ann@example.org" 1020 false
    ∷ attempt_of "ann@example.org" 1030 false
    ∷ attempt_of "ann@example.org" 1040 false
    ∷ []

login_sound_example :
    (check_lockout (λ s. s) 1000 "ann@example.org" [] ≡ false)
    × (u : User) × (user_by_email "ann@example.org" db.users ≡ some u)
    × (u.is_active ≡ true)
    × (passwords.verify "secret" u.password_hash ≡ true)
    × (partial_token "token" ≡ (
        if u.totp_enabled
        then partial_token
            (create_access_token (jwt_for partial_of_ann) 30 1000 u.id true u.session_version)
        else full_token
            (create_access_token (jwt_for partial_of_ann) 30 1000 u.id false u.session_version)))
unfolding login issue_token password_matches user_by_email check_lockout recent_attempts sort_desc
    consecutive_failures create_access_token
login_sound_example =
    login_sound (env_for partial_of_ann) 1000 "ann@example.org" "secret" "::1" db []
      (partial_token "token") refl

check_lockout-window_example :
    check_lockout (λ s. s) 1050 "ann@example.org" five_failures
    ≡ leb 5 (failures_in_a_row "ann@example.org" 1050 0 five_failures)
check_lockout-window_example =
    check_lockout-window (λ s. s) 1050 "ann@example.org" five_failures
      (omega arith, (omega arith, (omega arith, (omega arith, (omega arith, tt)))))

abbrev stored_token : RefreshToken
stored_token = record {
  user_id = "u1";
  token_hash = "refresh";
  token_prefix = "refresh";
  is_revoked = false;
  expires_at = 5000;
}

revoke-invalid_example :
    is_refresh_token_valid passwords
      (λ s. s)
      1000
      "refresh"
      (revoke_refresh_token passwords (λ s. s) "refresh" (stored_token ∷ []))
    ≡ false
revoke-invalid_example =
    revoke-invalid passwords (λ s. s) 1000 "refresh" (stored_token ∷ []) (inr (refl, refl, tt))

backup_code_works_once_example :
    let (accepted, db') = verify_totp passwords codes "u1" "A1" db in
    (accepted ≡ true)
    × (user_by_id "u1" db'.users ≡ some (record ann { backup_codes = some "B2" }))
    × (◌≡◌ {A = ℕ} 2 2)
    × ((verify_totp passwords codes "u1" "A1" db').0 ≡ false)
unfolding user_by_id take_code
backup_code_works_once_example =
    backup_code_works_once passwords codes "u1" "A1" "A1,B2" "seed" ("A1" ∷ "B2" ∷ []) ("B2" ∷ [])
      db ann refl refl refl refl refl refl refl (refl, tt) refl

change_password-revokes_example :
    succeeded (
      resolve_jwt_user
        (libs_for session_of_ann)
        settings
        1100
        []
        (change_password passwords "salt" "u1" "secret" "better" db).1
        (create_access_token (jwt_for session_of_ann) 30 1000 "u1" false 2))
    ≡ false
unfolding user_by_id
change_password-revokes_example =
    change_password-revokes (libs_for session_of_ann) settings [] "salt" "secret" "better" 30 1000
      1100 db ann false 2 refl refl (omega arith) (IsSigned-jwt_for session_of_ann) (omega arith)

resolve_jwt_user_sound_example :
    (c : Claims) × ((jwt_for session_of_ann).decode 1100 "token" ≡ some c)
    × (c.totp_pending ≡ false)
    × (id : String) × (truthy c.sub ≡ some id)
    × (u : User) × (user_by_id id db.users ≡ some u)
    × (u.is_active ≡ true)
    × (u.session_version ≤ token_sv c)
    × (build_user_context [] db ann ≡ build_user_context [] db u)
unfolding resolve_jwt_user decode_token resolve_claims resolve_session user_by_id
resolve_jwt_user_sound_example =
    resolve_jwt_user_sound (libs_for session_of_ann) settings 1100 [] db "token"
      (build_user_context [] db ann) refl

superadmin_sound_example :
    IsOfSuperadmin
      (libs_for session_of_ann)
      settings
      1100
      []
      db
      (truthy bypass_request.session_cookie)
      dev_bypass_user
    ⊎ IsOfSuperadmin
        (libs_for session_of_ann)
        settings
        1100
        []
        db
        (bearer bypass_request)
        dev_bypass_user
    ⊎ ((settings.dev_bypass_token ≢ "")
        × (dev_token bypass_request ≡ some settings.dev_bypass_token))
unfolding resolve_credentials resolve_dev_bypass
superadmin_sound_example =
    superadmin_sound (libs_for session_of_ann) settings 1100 [] db bypass_request dev_bypass_user
      refl refl

abbrev second_step : Claims
second_step = access_claims 30 1100 "u1" false 0

-- A token library with a token of each step.
abbrev two_step_jwt : Jwt
two_step_jwt = record {
  encode = λ c. if c.totp_pending then "partial" else "full";
  decode = λ now t.
      if t == "full"
      then (if leb now second_step.exp then some second_step else none)
      else (if leb now partial_of_ann.exp then some partial_of_ann else none);
}

abbrev two_step_env : AuthEnv
two_step_env = record (env_for partial_of_ann) { jwt = two_step_jwt }

abbrev two_step_libs : Libraries
two_step_libs = record (libs_for partial_of_ann) { jwt = two_step_jwt }

second_step_token_refused_example :
    succeeded (resolve_jwt_user two_step_libs settings 1200 [] db "full") ≡ false
unfolding totp_verify partial_claims decode_token cut_prefix verify_totp user_by_id
    create_access_token
second_step_token_refused_example =
    second_step_token_refused two_step_env codes two_step_libs settings [] refl 1100 1200
      "Bearer partial" "123456" "full" "u1" db ann refl refl refl (omega arith)
      (λ now h. ground arith) (omega arith)
