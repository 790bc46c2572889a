-- ===== src/Auth/Totp.antt =====
-- Two-factor codes of scottycore/services/auth/service.py: `enable_totp`, `disable_totp`,
-- `verify_totp` and the backup codes.
pub mod OneTime
use fastapi_modular_template.Base.{
  String, ◌≡◌, Bool, true, false, not, Option, none, some, List, [], ◌∷◌, map, if◌then◌else◌,
  truthy, Result, authentication_error, ok, err,
}
use fastapi_modular_template.Users.{UserDb, user_by_id}
use fastapi_modular_template.Users.Service.{Passwords, set_totp, clear_totp, consume_backup_code}

-- What is called of libraries: `pyotp.TOTP(secret).verify(code.strip(), valid_window=1)` at the
-- current time, `json.loads` (none where it raises) and `json.dumps` on a list of texts, and the
-- case mappings of `str`.
pub record Codes : Type 0 where
  pub totp : String → String → Bool
  pub loads : String → Option (List String)
  pub dumps : List String → String
  pub strip : String → String
  pub upper : String → String

-- Documented: the list `xs` loads again when it has been dumped.
abbrev pub IsJson : Codes → List String → Type 0
IsJson codes xs = codes.loads (codes.dumps xs) ≡ some xs

-- `_hash_backup_codes`; each hash draws its salt.
unfoldable pub hash_backup_codes : Passwords → Codes → List (String × String) → List String
hash_backup_codes passwords codes salted =
    map (λ (p : String × String). passwords.hash p.0 (codes.upper p.1)) salted

-- `plain` are the new codes with the salts of their hashes.
unfoldable pub enable_totp :
    Passwords
    → Codes
    → String
    → String
    → String
    → List (String × String)
    → UserDb
    → Result (List String) × UserDb
enable_totp passwords codes user_id secret code plain db =
    if not (codes.totp secret code)
    then (err (authentication_error "Invalid TOTP code"), db)
    else let (r, db') =
        set_totp user_id secret (codes.dumps (hash_backup_codes passwords codes plain)) db in
      elim r [ ok _ ↦ (ok (map (λ (p : String × String). p.1) plain), db') | err e ↦ (err e, db') ]

unfoldable pub disable_totp : String → UserDb → Result (Unit {0}) × UserDb
disable_totp user_id db = clear_totp user_id db

-- The loop over the hashes: the list without the first one that the code verifies against.
unfoldable pub take_code : Passwords → String → List String → Option (List String)
take_code passwords code [] = none
take_code passwords code (h ∷ hs) = elim (passwords.verify code h) [
  | true ↦ some hs
  | false ↦ elim (take_code passwords code hs) [ none ↦ none | some rest ↦ some (h ∷ rest) ]
]

unfoldable pub verify_backup_code :
    Passwords → Codes → String → String → Option String → UserDb → Bool × UserDb
verify_backup_code passwords codes user_id code stored db = elim (truthy stored) [
  | none ↦ (false, db)
  | some json ↦ elim (codes.loads json) [
    | none ↦ (false, db)
    | some hashed ↦ elim (take_code passwords (codes.upper (codes.strip code)) hashed) [
      | none ↦ (false, db)
      | some rest ↦ (true, consume_backup_code user_id (codes.dumps rest) db)
    ]
  ]
]

unfoldable pub verify_totp : Passwords → Codes → String → String → UserDb → Bool × UserDb
verify_totp passwords codes user_id code db = elim (user_by_id user_id db.users) [
  | none ↦ (false, db)
  | some u ↦ if not u.totp_enabled then (false, db) else elim (truthy u.totp_secret) [
    | none ↦ (false, db)
    | some secret ↦
        if codes.totp secret code
        then (true, db)
        else verify_backup_code passwords codes user_id code u.backup_codes db
  ]
]
