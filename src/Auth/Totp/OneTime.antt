-- ===== src/Auth/Totp/OneTime.antt =====
-- A backup code works once.
use fastapi_modular_template.Base.{
  suc, String, ◌≡◌, refl, inl, inr, true, false, none, some, List, [], ◌∷◌, arith, Bool-cases,
  Option-cases, length, All, truthy,
}
use fastapi_modular_template.Users.{User, UserDb, user_by_id}
use fastapi_modular_template.Users.Rows.{user_by_id-update_users}
use fastapi_modular_template.Users.Service.{Passwords, consume_backup_code}
use fastapi_modular_template.Auth.Totp.{Codes, IsJson, take_code, verify_backup_code, verify_totp}

-- The code verifies against no hash of the list.
abbrev pub IsUnknown : Passwords → String → List String → Type 0
IsUnknown passwords code hashed = All (λ h. passwords.verify code h ≡ false) hashed

take_code-none :
    (passwords : Passwords) (code : String) (hashed : List String)
    → IsUnknown passwords code hashed
    → take_code passwords code hashed ≡ none
unfolding take_code
take_code-none passwords code [] h = refl
take_code-none passwords code (x ∷ xs) h = ground (arith, take_code-none passwords code xs h.1)

length-take_code :
    (passwords : Passwords) (code : String) (hashed rest : List String)
    → take_code passwords code hashed ≡ some rest
    → suc (length rest) ≡ length hashed
unfolding take_code
length-take_code passwords code [] rest h = cc
length-take_code passwords code (x ∷ xs) rest h = elim (Bool-cases (passwords.verify code x)) [
  | inl here ↦ ground (arith, here)
  | inr later ↦ elim (Option-cases (take_code passwords code xs)) [
    | inl missing ↦ absurd (ground (arith, later, missing))
    | inr (less, found) ↦
        ground (arith, later, found, length-take_code passwords code xs less found)
  ]
]

module _ (passwords : Passwords) (codes : Codes) where
  -- A backup code of a user with two-factor login that is accepted is taken off the stored list,
  -- which is then shorter by one, and is refused when it is given again, if no code left has a
  -- hash that it verifies against and the list loads again when it has been dumped.
  pub backup_code_works_once :
      (user_id code stored secret : String) (hashed rest : List String) (db : UserDb) (u : User)
      → user_by_id user_id db.users ≡ some u
      → u.totp_enabled ≡ true
      → truthy u.totp_secret ≡ some secret
      → codes.totp secret code ≡ false
      → truthy u.backup_codes ≡ some stored
      → codes.loads stored ≡ some hashed
      → take_code passwords (codes.upper (codes.strip code)) hashed ≡ some rest
      → IsUnknown passwords (codes.upper (codes.strip code)) rest
      → IsJson codes rest
      → let (accepted, db') = verify_totp passwords codes user_id code db in
        (accepted ≡ true)
        × (user_by_id user_id db'.users
            ≡ some (record u { backup_codes = some (codes.dumps rest) }))
        × (suc (length rest) ≡ length hashed)
        × ((verify_totp passwords codes user_id code db').0 ≡ false)
  unfolding verify_totp verify_backup_code consume_backup_code
  backup_code_works_once user_id code stored secret hashed rest db u found on has_secret no_totp
        has_codes loaded taken unknown json =
      let spent = λ (x : User). record x { backup_codes = some (codes.dumps rest) } in
      let kept = user_by_id-update_users user_id spent db.users u (λ x. refl) found in
      (
        ground (arith, found),
        ground (arith, found, kept),
        length-take_code passwords (codes.upper (codes.strip code)) hashed rest taken,
        ground (
          arith,
          found,
          kept,
          json,
          take_code-none passwords (codes.upper (codes.strip code)) rest unknown,
        ),
      )
