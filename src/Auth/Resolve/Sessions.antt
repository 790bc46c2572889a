-- ===== src/Auth/Resolve/Sessions.antt =====
-- Which tokens still stand for a user.
use fastapi_modular_template.Base.{
  ℕ, ◌+◌, ◌*◌, ◌≤◌, ◌<◌, String, ◌≡◌, refl, ◌∙◌, ◌≢◌, Bool, true, false, none, some, List, arith,
  eq_iff, succeeded, forbidden_error, ok, err,
}
use fastapi_modular_template.Users.Rows.{user_by_id-update_users}
use fastapi_modular_template.Tenants.{Tenant}
use fastapi_modular_template.Users.{User, UserDb, user_by_id, update_users}
use fastapi_modular_template.Users.Service.{
  change_password, build_user_context, Passwords, UserUpdate, bump_if_deactivated, changed,
  update_for_tenant, deactivate_for_tenant,
}
use fastapi_modular_template.Auth.Tokens.{
  IsSigned, access_claims, create_access_token, decode_token,
}
use fastapi_modular_template.Auth.Resolve.{
  Settings, Libraries, timeout_minutes, resolve_session, resolve_claims, resolve_jwt_user,
}

abbrev deactivation : UserUpdate
deactivation = record { display_name = none; is_active = some false; role = none }

abbrev pub reactivation : UserUpdate
reactivation = record { display_name = none; is_active = some true; role = none }

abbrev rekeyed : Passwords → String → String → User → User
rekeyed passwords salt new x = record x {
  password_hash = passwords.hash salt new;
  session_version = x.session_version + 1;
}

user_by_id-update_for_tenant :
    (tenant id actor : String) (patch : UserUpdate) (db : UserDb) (u : User)
    → patch.role ≡ none
    → user_by_id id db.users ≡ some u
    → user_by_id id (update_for_tenant tenant id actor patch db).1.users ≡ some (changed patch u)
unfolding update_for_tenant
user_by_id-update_for_tenant tenant id actor patch db u no_role found =
    ground (arith, user_by_id-update_users id (changed patch) db.users u (λ x. refl) found)

module _ (libs : Libraries) (settings : Settings) (tenants : List Tenant) where
  -- A token that has not expired is judged by its claims.
  resolve-create_access_token :
      (expire issued now : ℕ) (db : UserDb) (id : String) (pending : Bool) (version : ℕ)
      → IsSigned libs.jwt (access_claims expire issued id pending version)
      → now ≤ (access_claims expire issued id pending version).exp
      → resolve_jwt_user libs settings now tenants db
          (create_access_token libs.jwt expire issued id pending version)
        ≡ resolve_claims libs settings now tenants db
            (access_claims expire issued id pending version)
  unfolding resolve_jwt_user create_access_token decode_token
  resolve-create_access_token expire issued now db id pending version signed live =
      ground (arith, signed now live)

  -- A partial token, within its five minutes, is refused as lacking the second factor, if the
  -- token library decodes it.
  partial_token_refused :
      (expire issued now : ℕ) (db : UserDb) (id : String) (version : ℕ)
      → IsSigned libs.jwt (access_claims expire issued id true version)
      → now ≤ issued + 300
      → resolve_jwt_user libs settings now tenants db
          (create_access_token libs.jwt expire issued id true version)
        ≡ err (forbidden_error "TOTP verification required")
  unfolding resolve_claims
  partial_token_refused expire issued now db id version signed live =
      resolve-create_access_token expire issued now db id true version signed live

  -- A full token resolves to the context of its user until it expires or the session times out,
  -- while the user is active and of no later session version, if the token library decodes the
  -- token.
  live_token_resolves :
      (expire issued now : ℕ) (db : UserDb) (u : User) (version : ℕ)
      → IsSigned libs.jwt (access_claims expire issued u.id false version)
      → now ≤ issued + expire * 60
      → now ≤ issued + timeout_minutes libs settings * 60
      → u.id ≢ ""
      → user_by_id u.id db.users ≡ some u
      → u.is_active ≡ true
      → u.session_version ≤ version
      → resolve_jwt_user libs settings now tenants db
          (create_access_token libs.jwt expire issued u.id false version)
        ≡ ok (some (build_user_context tenants db u))
  unfolding resolve_claims resolve_session
  live_token_resolves expire issued now db u version signed live fresh named found active current =
      resolve-create_access_token expire issued now db u.id false version signed live
      ∙ ground (arith, eq_iff u.id "")

  -- A token of a session version earlier than that of the user it names, while it has not expired,
  -- resolves to no user, if the token library decodes it.
  pub stale_token_refused :
      (expire issued now : ℕ) (db : UserDb) (u : User) (id : String) (pending : Bool) (version : ℕ)
      → IsSigned libs.jwt (access_claims expire issued id pending version)
      → now ≤ (access_claims expire issued id pending version).exp
      → user_by_id id db.users ≡ some u
      → version < u.session_version
      → succeeded (
          resolve_jwt_user libs settings now tenants db
            (create_access_token libs.jwt expire issued id pending version))
        ≡ false
  unfolding resolve_claims resolve_session
  stale_token_refused expire issued now db u id pending version signed live found stale =
      rw (resolve-create_access_token expire issued now db id pending version signed live)
        (ground arith)

  -- After a change of password with the right current password, a token of that user of a session
  -- version up to the old one, while it has not expired, resolves to no user, if the token library
  -- decodes it.
  pub change_password-revokes :
      (salt old new : String) (expire issued now : ℕ) (db : UserDb) (u : User) (pending : Bool)
      (version : ℕ)
      → user_by_id u.id db.users ≡ some u
      → libs.passwords.verify old u.password_hash ≡ true
      → version ≤ u.session_version
      → IsSigned libs.jwt (access_claims expire issued u.id pending version)
      → now ≤ (access_claims expire issued u.id pending version).exp
      → succeeded (
          resolve_jwt_user libs settings now tenants
            (change_password libs.passwords salt u.id old new db).1
            (create_access_token libs.jwt expire issued u.id pending version))
        ≡ false
  unfolding change_password
  change_password-revokes salt old new expire issued now db u pending version found matches before
        signed live =
      let new_users = update_users u.id (rekeyed libs.passwords salt new) db.users in
      rw (found, change_password)
        (rw matches (
          stale_token_refused expire issued now (record db { users = new_users })
            (rekeyed libs.passwords salt new u) u.id pending version signed live
            (user_by_id-update_users u.id (rekeyed libs.passwords salt new) db.users u (λ x. refl)
              found)
            (omega arith)))

  -- After a deactivation of a user a token of that user of a session version up to the old one,
  -- while it has not expired, resolves to no user, and this remains so after a reactivation, if
  -- the token library decodes it.
  deactivation-revokes :
      (tenant actor actor' : String) (expire issued now : ℕ) (db : UserDb) (u : User)
      (pending : Bool) (version : ℕ)
      → user_by_id u.id db.users ≡ some u
      → version ≤ u.session_version
      → IsSigned libs.jwt (access_claims expire issued u.id pending version)
      → now ≤ (access_claims expire issued u.id pending version).exp
      → let off = (deactivate_for_tenant tenant u.id actor db).1 in
        let on = (update_for_tenant tenant u.id actor' reactivation off).1 in
        let token = create_access_token libs.jwt expire issued u.id pending version in
        (succeeded (resolve_jwt_user libs settings now tenants off token) ≡ false)
        × (succeeded (resolve_jwt_user libs settings now tenants on token) ≡ false)
  unfolding deactivate_for_tenant bump_if_deactivated
  deactivation-revokes tenant actor actor' expire issued now db u pending version found before
        signed live =
      let off = (update_for_tenant tenant u.id actor deactivation db).1 in
      let on = (update_for_tenant tenant u.id actor' reactivation off).1 in
      let found_off = user_by_id-update_for_tenant tenant u.id actor deactivation db u refl found in
      let found_on =
        user_by_id-update_for_tenant tenant u.id actor' reactivation off (changed deactivation u)
          refl found_off in
      (
        stale_token_refused expire issued now off (changed deactivation u) u.id pending version
            signed live found_off (omega arith),
        stale_token_refused expire issued now on (changed reactivation (changed deactivation u))
            u.id pending version signed live found_on (omega arith),
      )
