-- ===== src/Tests/Data.antt =====
-- Test data: a user, her database, and stand-ins for the libraries.
use fastapi_modular_template.Base.{
  true, false, none, some, [], ◌∷◌, arith, ◌==◌, leb, if◌then◌else◌,
}
use fastapi_modular_template.Roles.{admin}
use fastapi_modular_template.Tenants.{Tenant}
use fastapi_modular_template.Users.{User, UserDb}
use fastapi_modular_template.Users.Service.{Passwords}
use fastapi_modular_template.Auth.Tokens.{Claims, Jwt, IsSigned, access_claims}
use fastapi_modular_template.Auth.Login.{AuthEnv}
use fastapi_modular_template.Auth.Totp.{Codes}
use fastapi_modular_template.Auth.Resolve.{Request, Settings, Libraries}

abbrev pub passwords : Passwords
passwords = record { hash = λ salt p. p; verify = λ p h. p == h }

-- A token library that signs the claims `c`, valid until they expire.
abbrev pub jwt_for : Claims → Jwt
jwt_for c = record {
  encode = λ _. "token";
  decode = λ now _. if leb now c.exp then some c else none;
}

pub IsSigned-jwt_for : (c : Claims) → IsSigned (jwt_for c) c
IsSigned-jwt_for c now h = ground arith

abbrev pub ann : User
ann = record {
  id = "u1";
  email = "ann@example.org";
  password_hash = "secret";
  display_name = "Ann";
  is_active = true;
  is_superadmin = false;
  totp_secret = some "seed";
  totp_enabled = true;
  backup_codes = some "A1,B2";
  session_version = 2;
}

abbrev pub bob : User
bob = record ann {
  id = "u2";
  email = "bob@example.org";
  is_active = false;
  totp_secret = none;
  totp_enabled = false;
  backup_codes = none;
}

abbrev pub db : UserDb
db = record {
  users = ann ∷ bob ∷ [];
  user_roles = record { user_id = "u1"; tenant_id = "t1"; role_id = 2; assigned_by = none } ∷ [];
  roles = record { id = 2; name = admin } ∷ [];
}

abbrev pub acme : Tenant
acme = record {
  id = "t1";
  name = "Acme";
  slug = "acme";
  api_key_hash = none;
  api_key_prefix = none;
  is_active = true;
}

-- What a first and a second step of a login sign for Ann at time 1000.
abbrev pub partial_of_ann : Claims
partial_of_ann = access_claims 30 1000 "u1" true 2

abbrev pub session_of_ann : Claims
session_of_ann = access_claims 30 1000 "u1" false 2

abbrev pub env_for : Claims → AuthEnv
env_for c = record {
  lower = λ s. s;
  strip = λ s. s;
  passwords = passwords;
  jwt = jwt_for c;
  expire_minutes = 30;
}

abbrev pub libs_for : Claims → Libraries
libs_for c = record {
  lower = λ s. s;
  strip = λ s. s;
  title_of = λ s. s;
  passwords = passwords;
  digest = λ s. s;
  jwt = jwt_for c;
}

abbrev pub settings : Settings
settings = record {
  trusted_providers = "cloudflare" ∷ [];
  admin_email = "ann@example.org";
  dev_bypass_token = "bypass";
  jwt_access_token_expire_minutes = 30;
  session_timeout = none;
}

abbrev pub bypass_request : Request
bypass_request = record {
  cf_email = none;
  azure_email = none;
  session_cookie = none;
  authorization = none;
  x_api_key = none;
  dev_token_query = some "bypass";
  dev_token_header = none;
}

-- Two backup codes are "A1,B2", the second alone is "B2".
abbrev pub codes : Codes
codes = record {
  totp = λ secret code. code == "123456";
  loads = λ s. if s == "A1,B2" then some ("A1" ∷ "B2" ∷ []) else some ("B2" ∷ []);
  dumps = λ xs. elim xs [ [] ↦ "" | x ∷ rest ↦ x ];
  strip = λ s. s;
  upper = λ s. s;
}
