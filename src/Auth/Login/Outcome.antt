-- ===== src/Auth/Login/Outcome.antt =====
-- What a login answers and records.
use fastapi_modular_template.Base.{
  ℕ, String, ◌≡◌, ◌≢◌, inl, inr, true, false, some, List, arith, eq_iff, if◌then◌else◌,
  Option-cases, succeeded, ok, err,
}
use fastapi_modular_template.Users.{User, UserDb, user_by_email}
use fastapi_modular_template.Auth.Lockout.{LoginAttempt, record_login_attempt, check_lockout}
use fastapi_modular_template.Auth.Tokens.{create_access_token}
use fastapi_modular_template.Auth.Login.{
  AuthEnv, LoginResponse, full_token, partial_token, generic_error, password_matches, issue_token,
  login,
}

module _ (env : AuthEnv) (now : ℕ) (email password ip : String) (db : UserDb)
    (attempts : List LoginAttempt) where
  abbrev pub key : String
  key = env.lower (env.strip email)

  -- Every login records exactly one attempt for the account, as a success exactly if it succeeds,
  -- and every refusal is the same error.
  login-records :
      ((login env now email password ip db attempts).1
        ≡ record_login_attempt env.lower now key
            (succeeded (login env now email password ip db attempts).0)
            ip
            attempts)
      × ((succeeded (login env now email password ip db attempts).0 ≡ false)
          → (login env now email password ip db attempts).0 ≡ err generic_error)
  unfolding login issue_token
  login-records = (ground arith, λ h. ground arith)

  -- A login succeeds only for an active user of that email, with the password that was given
  -- verified, while the account is not locked; and its token is partial exactly if the user has
  -- two-factor login.
  pub login_sound :
      (r : LoginResponse)
      → (login env now email password ip db attempts).0 ≡ ok r
      → (check_lockout env.lower now key attempts ≡ false)
        × (u : User) × (user_by_email key db.users ≡ some u)
        × (u.is_active ≡ true)
        × (env.passwords.verify password u.password_hash ≡ true)
        × (r ≡ (
            if u.totp_enabled
            then partial_token
                (create_access_token env.jwt env.expire_minutes now u.id true u.session_version)
            else full_token
                (create_access_token env.jwt env.expire_minutes now u.id false u.session_version)))
  unfolding login issue_token password_matches
  login_sound r h = elim (Option-cases (user_by_email key db.users)) [
    | inl missing ↦ absurd (ground (arith, missing))
    | inr (u, found) ↦ (
      ground (arith, found),
      u,
      found,
      ground (arith, found),
      ground (arith, found),
      ground (arith, found),
    )
  ]

  -- The right password of an active user with a stored hash, for an account that is not locked, is
  -- always accepted.
  login_complete :
      (u : User)
      → check_lockout env.lower now key attempts ≡ false
      → user_by_email key db.users ≡ some u
      → u.is_active ≡ true
      → u.password_hash ≢ ""
      → env.passwords.verify password u.password_hash ≡ true
      → succeeded (login env now email password ip db attempts).0 ≡ true
  unfolding login issue_token password_matches
  login_complete u open_account found active nonempty matches =
      ground (arith, eq_iff u.password_hash "")
