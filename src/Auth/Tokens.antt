-- ===== src/Auth/Tokens.antt =====
-- Tokens of scottycore/services/auth/service.py: claims, `create_access_token`, `decode_token` and
-- the stored refresh tokens of scottycore/services/auth/models.py. Times are in seconds.
pub mod Revocation
use fastapi_modular_template.Base.{
  ℕ, ◌+◌, ◌*◌, ◌≤◌, String, ◌≡◌, Bool, true, false, not, ◌&&◌, Option, none, some, List, [], ◌∷◌,
  ◌++◌, ◌==◌, ltb, if◌then◌else◌, Result, authentication_error, ok, err,
}
use fastapi_modular_template.Users.Service.{Passwords}

-- The payload of a token, by the claims that the program writes and reads.
pub record Claims : Type 0 where
  pub sub : Option String
  pub kind : String
  pub iat : Option ℕ
  pub exp : ℕ
  pub sv : Option ℕ
  pub totp_pending : Bool

-- The JWT library under the configured key: `decode` also sees the time, and raises on a bad
-- signature and on an expired token.
pub record Jwt : Type 0 where
  pub encode : Claims → String
  pub decode : ℕ → String → Option Claims

-- Documented: the token of the claims `c` decodes to them until it expires.
abbrev pub IsSigned : Jwt → Claims → Type 0
IsSigned jwt c = (now : ℕ) → now ≤ c.exp → jwt.decode now (jwt.encode c) ≡ some c

abbrev pub totp_partial_token_minutes : ℕ
totp_partial_token_minutes = 5

abbrev pub access_claims : ℕ → ℕ → String → Bool → ℕ → Claims
access_claims expire_minutes now user_id totp_pending session_version = record {
  sub = some user_id;
  kind = "access";
  iat = some now;
  exp = now + (if totp_pending then totp_partial_token_minutes else expire_minutes) * 60;
  sv = some session_version;
  totp_pending = totp_pending;
}

-- `expire_minutes` is `jwt_access_token_expire_minutes`; no caller gives `extra_claims`.
unfoldable pub create_access_token : Jwt → ℕ → ℕ → String → Bool → ℕ → String
create_access_token jwt expire_minutes now user_id totp_pending session_version =
    jwt.encode (access_claims expire_minutes now user_id totp_pending session_version)

unfoldable pub decode_token : Jwt → ℕ → String → Result Claims
decode_token jwt now token = elim (jwt.decode now token) [
  | none ↦ err (authentication_error "Invalid token")
  | some claims ↦ ok claims
]

pub record RefreshToken : Type 0 where
  pub user_id : String
  pub token_hash : String
  pub token_prefix : String
  pub is_revoked : Bool
  pub expires_at : ℕ

-- `digest` is the 16-digit prefix of SHA-256.
module _ (passwords : Passwords) (digest : String → String) where
  unfoldable pub store_refresh_token :
      String → String → String → ℕ → List RefreshToken → List RefreshToken
  store_refresh_token salt user_id token expires_at tokens =
      tokens
      ++ record {
        user_id = user_id;
        token_hash = passwords.hash salt token;
        token_prefix = digest token;
        is_revoked = false;
        expires_at = expires_at;
      }
        ∷ []

  -- The first row of the token's prefix that is not revoked is revoked, if it is this token's.
  unfoldable pub revoke_refresh_token : String → List RefreshToken → List RefreshToken
  revoke_refresh_token token [] = []
  revoke_refresh_token token (t ∷ ts) =
      let rest = revoke_refresh_token token ts in
      if t.token_prefix == digest token && not t.is_revoked
      then (if passwords.verify token t.token_hash then record t { is_revoked = true } else t) ∷ ts
      else t ∷ rest

  unfoldable pub is_refresh_token_valid : ℕ → String → List RefreshToken → Bool
  is_refresh_token_valid now token [] = false
  is_refresh_token_valid now token (t ∷ ts) =
      let rest = is_refresh_token_valid now token ts in
      if t.token_prefix == digest token && not t.is_revoked && ltb now t.expires_at
      then passwords.verify token t.token_hash
      else rest
