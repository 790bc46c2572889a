-- ===== src/Auth/Tokens/Revocation.antt =====
-- A refresh token that was revoked is no longer valid.
use fastapi_modular_template.Base.{
  ℕ, String, ◌≡◌, refl, ◌⊎◌, inl, inr, true, false, not, ◌&&◌, List, [], ◌∷◌, arith, ◌==◌, All,
}
use fastapi_modular_template.Users.Service.{Passwords}
use fastapi_modular_template.Auth.Tokens.{
  RefreshToken, revoke_refresh_token, is_refresh_token_valid,
}

module _ (passwords : Passwords) (digest : String → String) where
  -- No row of the token's prefix is left that is not revoked.
  abbrev pub IsSpent : String → List RefreshToken → Type 0
  IsSpent token ts = All (λ t. (t.token_prefix == digest token && not t.is_revoked) ≡ false) ts

  -- At most one row of the token's prefix is not revoked, and it is the token's.
  abbrev pub IsUnique : String → List RefreshToken → Type 0
  IsUnique token [] = Unit
  IsUnique token (t ∷ ts) =
      ((t.token_prefix == digest token && not t.is_revoked) ≡ false) × IsUnique token ts
      ⊎ (((t.token_prefix == digest token && not t.is_revoked) ≡ true)
          × (passwords.verify token t.token_hash ≡ true)
          × IsSpent token ts)

  invalid_of_IsSpent :
      (now : ℕ) (token : String) (ts : List RefreshToken)
      → IsSpent token ts
      → is_refresh_token_valid passwords digest now token ts ≡ false
  unfolding is_refresh_token_valid
  invalid_of_IsSpent now token [] h = refl
  invalid_of_IsSpent now token (t ∷ ts) h = ground (arith, invalid_of_IsSpent now token ts h.1)

  -- A revoked refresh token is invalid at every time, if at most one row of its prefix is not
  -- revoked, and that one is the token's.
  pub revoke-invalid :
      (now : ℕ) (token : String) (ts : List RefreshToken)
      → IsUnique token ts
      → is_refresh_token_valid passwords digest now token
          (revoke_refresh_token passwords digest token ts)
        ≡ false
  unfolding is_refresh_token_valid revoke_refresh_token
  revoke-invalid now token [] h = refl
  revoke-invalid now token (t ∷ ts) (inl (other, h)) = ground (arith, revoke-invalid now token ts h)
  revoke-invalid now token (t ∷ ts) (inr (live, mine, h)) =
      ground (arith, invalid_of_IsSpent now token ts h)
