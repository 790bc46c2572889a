-- ===== src/Users/Service.antt =====
-- The operations of scottycore/services/users/service.py. An operation that raises has not
-- committed: the database comes back unchanged. `hash` and `verify` are bcrypt's, `hash` with the
-- salt that it draws; new identifiers are arguments. The audit log is not modelled.
use fastapi_modular_template.Base.{
  ℕ, ◌+◌, String, Bool, true, false, not, ◌&&◌, Option, none, some, List, [], ◌∷◌, ◌==◌,
  if◌then◌else◌, is_some, any, Dict, insert, Result, authentication_error, not_found_error,
  conflict_error, ok, err,
}
use fastapi_modular_template.Roles.{RoleName, viewer, UserContext}
use fastapi_modular_template.Tenants.{Tenant, get_tenant}
use fastapi_modular_template.Users.{
  User, UserTenantRole, UserDb, user_by_id, user_by_email, update_users, create_user, role_by_name,
  user_tenant_role, set_role_id, assign_role, get_user_roles, list_active_superadmins, role_of_id,
}

pub record Passwords : Type 0 where
  pub hash : String → String → String
  pub verify : String → String → Bool

pub record UserUpdate : Type 0 where
  pub display_name : Option String
  pub is_active : Option Bool
  pub role : Option RoleName

abbrev pub or_keep {ℓ} : {A : Type ℓ} → Option A → A → A
or_keep none a = a
or_keep (some b) a = b

-- Deactivating a user invalidates all their tokens.
unfoldable pub bump_if_deactivated : Option Bool → ℕ → ℕ
bump_if_deactivated (some false) version = version + 1
bump_if_deactivated (some true) version = version
bump_if_deactivated none version = version

abbrev pub changed : UserUpdate → User → User
changed patch u = record u {
  display_name = or_keep patch.display_name u.display_name;
  is_active = or_keep patch.is_active u.is_active;
  session_version = bump_if_deactivated patch.is_active u.session_version;
}

unfoldable pub put_role : String → String → String → ℕ → List UserTenantRole → List UserTenantRole
put_role tenant_id user_id assigned_by role_id rs =
    if is_some (user_tenant_role user_id tenant_id rs)
    then set_role_id user_id tenant_id role_id rs
    else assign_role user_id tenant_id role_id (some assigned_by) rs

-- The role of a user in a tenant as the answer shows it: viewer where there is none.
unfoldable pub current_role : String → String → List UserTenantRole → RoleName
current_role tenant_id user_id rs = elim (user_tenant_role user_id tenant_id rs) [
  | none ↦ viewer
  | some r ↦ role_of_id r.role_id
]

-- `update_for_tenant`; the answer is the user's role in the tenant.
unfoldable pub update_for_tenant :
    String → String → String → UserUpdate → UserDb → Result RoleName × UserDb
update_for_tenant tenant_id user_id actor patch db = elim (user_by_id user_id db.users) [
  | none ↦ (err (not_found_error "User"), db)
  | some u ↦
      let users' = update_users user_id (changed patch) db.users in
      elim patch.role [
        | none ↦ (ok (current_role tenant_id user_id db.user_roles), record db { users = users' })
        | some name ↦ elim (role_by_name name db.roles) [
          | none ↦ (err (not_found_error "Role"), db)
          | some role ↦
              let rows = put_role tenant_id user_id actor role.id db.user_roles in
              (
                ok (current_role tenant_id user_id rows),
                record db { users = users'; user_roles = rows },
              )
        ]
      ]
]

unfoldable pub deactivate_for_tenant : String → String → String → UserDb → Result RoleName × UserDb
deactivate_for_tenant tenant_id user_id actor db =
    update_for_tenant tenant_id user_id actor
      (record { display_name = none; is_active = some false; role = none }) db

unfoldable pub create_for_tenant :
    Passwords
    → String
    → String
    → String
    → String
    → String
    → String
    → String
    → RoleName
    → UserDb
    → Result RoleName × UserDb
create_for_tenant passwords salt new_id tenant_id actor email password display_name role_name db =
    if is_some (user_by_email email db.users)
    then (err (conflict_error "User"), db)
    else elim (role_by_name role_name db.roles) [
      | none ↦ (err (not_found_error "Role"), db)
      | some role ↦ (
        ok role_name,
        record db {
          users =
              create_user new_id email (passwords.hash salt password) display_name false db.users;
          user_roles = assign_role new_id tenant_id role.id (some actor) db.user_roles;
        },
      )
    ]

-- `create_superadmin`; the answer is the new user's email.
unfoldable pub create_superadmin :
    Passwords → String → String → String → String → String → UserDb → Result String × UserDb
create_superadmin passwords salt new_id email password display_name db =
    if is_some (user_by_email email db.users) then (err (conflict_error "User"), db) else (
      ok email,
      record db {
        users = create_user new_id email (passwords.hash salt password) display_name true db.users;
      },
    )

unfoldable pub update_profile : String → String → UserDb → Result (Unit {0}) × UserDb
update_profile user_id display_name db = elim (user_by_id user_id db.users) [
  | none ↦ (err (not_found_error "User"), db)
  | some u ↦ (
    ok tt,
    record db {
      users = update_users user_id (λ x. record x { display_name = display_name }) db.users;
    },
  )
]

unfoldable pub change_password :
    Passwords → String → String → String → String → UserDb → Result (Unit {0}) × UserDb
change_password passwords salt user_id current_password new_password db =
    elim (user_by_id user_id db.users) [
      | none ↦ (err (not_found_error "User"), db)
      | some u ↦
          if not (passwords.verify current_password u.password_hash)
          then (err (authentication_error "Current password is incorrect"), db)
          else (
            ok tt,
            record db {
              users =
                  update_users user_id
                    (λ x. record x {
                      password_hash = passwords.hash salt new_password;
                      session_version = x.session_version + 1;
                    })
                    db.users;
            },
          )
    ]

abbrev pub external_auth_sentinel : String
external_auth_sentinel = "_external_auth_no_password_"

unfoldable pub create_external_user :
    Passwords → String → String → String → String → UserDb → UserDb
create_external_user passwords salt new_id email display_name db =
    if is_some (user_by_email email db.users) then db else record db {
      users =
          create_user new_id email (passwords.hash salt external_auth_sentinel) display_name false
            db.users;
    }

unfoldable pub promote_to_superadmin : String → UserDb → UserDb
promote_to_superadmin email db = elim (user_by_email email db.users) [
  | none ↦ db
  | some u ↦
      if u.is_superadmin
      then db
      else record db { users = update_users u.id (λ x. record x { is_superadmin = true }) db.users }
]

unfoldable pub has_local_password_superadmin : Passwords → UserDb → Bool
has_local_password_superadmin passwords db =
    any
      (λ u.
        not (u.password_hash == "")
        && not (passwords.verify external_auth_sentinel u.password_hash))
      (list_active_superadmins db.users)

unfoldable pub set_totp : String → String → String → UserDb → Result (Unit {0}) × UserDb
set_totp user_id secret codes db = elim (user_by_id user_id db.users) [
  | none ↦ (err (not_found_error "User"), db)
  | some u ↦ (
    ok tt,
    record db {
      users =
          update_users user_id
            (λ x. record x {
              totp_secret = some secret;
              totp_enabled = true;
              backup_codes = some codes;
            })
            db.users;
    },
  )
]

unfoldable pub clear_totp : String → UserDb → Result (Unit {0}) × UserDb
clear_totp user_id db = elim (user_by_id user_id db.users) [
  | none ↦ (err (not_found_error "User"), db)
  | some u ↦ (
    ok tt,
    record db {
      users =
          update_users user_id
            (λ x. record x { totp_secret = none; totp_enabled = false; backup_codes = none })
            db.users;
    },
  )
]

unfoldable pub consume_backup_code : String → String → UserDb → UserDb
consume_backup_code user_id remaining db = record db {
  users = update_users user_id (λ x. record x { backup_codes = some remaining }) db.users;
}

-- `{tenant_id: role}`; a later row of the same tenant replaces an earlier one.
unfoldable pub tenant_role_dict : List UserTenantRole → Dict RoleName → Dict RoleName
tenant_role_dict [] found = found
tenant_role_dict (r ∷ rs) found =
    tenant_role_dict rs (insert r.tenant_id (role_of_id r.role_id) found)

unfoldable pub get_user_tenant_roles : String → UserDb → Dict RoleName
get_user_tenant_roles user_id db = tenant_role_dict (get_user_roles user_id db.user_roles) []

-- The loop of `build_user_context`: roles in tenants that are gone are skipped.
unfoldable pub slug_roles : List Tenant → Dict RoleName → Dict RoleName → Dict RoleName
slug_roles tenants [] found = found
slug_roles tenants ((tid, role) ∷ more) found = elim (get_tenant tid tenants) [
  | err e ↦ slug_roles tenants more found
  | ok tenant ↦ slug_roles tenants more (insert tenant.slug role found)
]

unfoldable pub build_user_context : List Tenant → UserDb → User → UserContext
build_user_context tenants db u = record {
  user_id = u.id;
  email = u.email;
  display_name = u.display_name;
  is_superadmin = u.is_superadmin;
  totp_enabled = u.totp_enabled;
  tenant_roles = slug_roles tenants (get_user_tenant_roles u.id db) [];
}
