-- ===== src/Users/Emails.antt =====
-- No two users share an email, whatever operations run, one after the other.
use fastapi_modular_template.Base.{
  ◌+◌, String, ◌≡◌, refl, Bool, true, false, none, some, List, [], ◌∷◌, arith, is_some,
}
use fastapi_modular_template.Roles.{RoleName}
use fastapi_modular_template.Users.{User, UserDb, user_by_email, create_user}
use fastapi_modular_template.Users.Service.{
  Passwords, UserUpdate, changed, update_for_tenant, create_for_tenant, create_superadmin,
  update_profile, change_password, create_external_user, promote_to_superadmin, set_totp,
  clear_totp, consume_backup_code, external_auth_sentinel,
}
use fastapi_modular_template.Users.Rows.{
  UniqueEmails, HasNoEmail-user_by_email, UniqueEmails-update_users, UniqueEmails-append,
}

-- A call of the service that may write to the users table.
pub data UserOp : Type 0 where
  create_in_tenant :
      String → String → String → String → String → String → String → RoleName → UserOp
  create_admin : String → String → String → String → String → UserOp
  create_external : String → String → String → String → UserOp
  update_in_tenant : String → String → String → UserUpdate → UserOp
  rename_self : String → String → UserOp
  new_password : String → String → String → String → UserOp
  promote : String → UserOp
  totp_on : String → String → String → UserOp
  totp_off : String → UserOp
  use_code : String → String → UserOp

module _ (passwords : Passwords) where
  unfoldable pub run : UserOp → UserDb → UserDb
  run (create_in_tenant salt new_id tenant actor email password name role) db =
      (create_for_tenant passwords salt new_id tenant actor email password name role db).1
  run (create_admin salt new_id email password name) db =
      (create_superadmin passwords salt new_id email password name db).1
  run (create_external salt new_id email name) db =
      create_external_user passwords salt new_id email name db
  run (update_in_tenant tenant user actor patch) db =
      (update_for_tenant tenant user actor patch db).1
  run (rename_self user name) db = (update_profile user name db).1
  run (new_password salt user old new) db = (change_password passwords salt user old new db).1
  run (promote email) db = promote_to_superadmin email db
  run (totp_on user secret codes) db = (set_totp user secret codes db).1
  run (totp_off user) db = (clear_totp user db).1
  run (use_code user codes) db = consume_backup_code user codes db

  unfoldable pub run_all : List UserOp → UserDb → UserDb
  run_all [] db = db
  run_all (op ∷ ops) db = run_all ops (run op db)

  UniqueEmails-create_user :
      (id email password_hash name : String) (is_super : Bool) (us : List User)
      → is_some (user_by_email email us) ≡ false
      → UniqueEmails us
      → UniqueEmails (create_user id email password_hash name is_super us)
  unfolding create_user
  UniqueEmails-create_user id email password_hash name is_super us missing h =
      UniqueEmails-append us _ h (HasNoEmail-user_by_email email us missing)

  UniqueEmails-run :
      (op : UserOp) (db : UserDb) → UniqueEmails db.users → UniqueEmails (run op db).users
  unfolding run create_for_tenant create_superadmin create_external_user update_for_tenant
      update_profile change_password promote_to_superadmin set_totp clear_totp consume_backup_code
  UniqueEmails-run (create_in_tenant salt new_id tenant actor email password name role) db h =
      ground (
        arith,
        UniqueEmails-create_user new_id email (passwords.hash salt password) name false db.users,
      )
  UniqueEmails-run (create_admin salt new_id email password name) db h = ground (
    arith,
    UniqueEmails-create_user new_id email (passwords.hash salt password) name true db.users,
  )
  UniqueEmails-run (create_external salt new_id email name) db h = ground (
    arith,
    UniqueEmails-create_user new_id email (passwords.hash salt external_auth_sentinel) name false
        db.users,
  )
  UniqueEmails-run (update_in_tenant tenant user actor patch) db h =
      let kept = UniqueEmails-update_users user (changed patch) db.users (λ x. refl) h in
      ground arith
  UniqueEmails-run (rename_self user name) db h =
      let kept =
        UniqueEmails-update_users user (λ x. record x { display_name = name }) db.users (λ x. refl)
          h in
      ground arith
  UniqueEmails-run (new_password salt user old new) db h =
      let kept =
        UniqueEmails-update_users user
          (λ x. record x {
            password_hash = passwords.hash salt new;
            session_version = x.session_version + 1;
          })
          db.users (λ x. refl) h in
      ground arith
  UniqueEmails-run (promote email) db h =
      let kept = λ (u : User).
        UniqueEmails-update_users u.id (λ x. record x { is_superadmin = true }) db.users (λ x. refl)
          h in
      grind (arith, kept)
  UniqueEmails-run (totp_on user secret codes) db h =
      let kept =
        UniqueEmails-update_users user
          (λ x. record x {
            totp_secret = some secret;
            totp_enabled = true;
            backup_codes = some codes;
          })
          db.users (λ x. refl) h in
      ground arith
  UniqueEmails-run (totp_off user) db h =
      let kept =
        UniqueEmails-update_users user
          (λ x. record x { totp_secret = none; totp_enabled = false; backup_codes = none }) db.users
          (λ x. refl) h in
      ground arith
  UniqueEmails-run (use_code user codes) db h =
      UniqueEmails-update_users user (λ x. record x { backup_codes = some codes }) db.users
        (λ x. refl) h

  -- No sequence of operations of the users service leads from a users table without a repeated
  -- email to one with a repeated email.
  pub run_all-UniqueEmails :
      (ops : List UserOp) (db : UserDb)
      → UniqueEmails db.users
      → UniqueEmails (run_all ops db).users
  unfolding run_all
  run_all-UniqueEmails [] db h = h
  run_all-UniqueEmails (op ∷ ops) db h =
      run_all-UniqueEmails ops (run op db) (UniqueEmails-run op db h)
