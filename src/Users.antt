-- ===== src/Users.antt =====
-- The users table: scottycore/services/users/models.py and scottycore/services/users/repository.py.
pub mod Service
pub mod Rows
pub mod Emails
use fastapi_modular_template.Base.{
  ℕ, String, Bool, true, false, ◌&&◌, Option, none, some, List, [], ◌∷◌, ◌++◌, ◌==◌, eqb,
  if◌then◌else◌, filter,
}
use fastapi_modular_template.Roles.{RoleName, superadmin, admin, analyst, viewer}

pub record User : Type 0 where
  pub id : String
  pub email : String
  pub password_hash : String
  pub display_name : String
  pub is_active : Bool
  pub is_superadmin : Bool
  pub totp_secret : Option String
  pub totp_enabled : Bool
  pub backup_codes : Option String
  pub session_version : ℕ

pub record UserTenantRole : Type 0 where
  pub user_id : String
  pub tenant_id : String
  pub role_id : ℕ
  pub assigned_by : Option String

pub record Role : Type 0 where
  pub id : ℕ
  pub name : RoleName

pub record UserDb : Type 0 where
  pub users : List User
  pub user_roles : List UserTenantRole
  pub roles : List Role

unfoldable pub user_by_id : String → List User → Option User
user_by_id id [] = none
user_by_id id (u ∷ us) = if u.id == id then some u else user_by_id id us

unfoldable pub user_by_email : String → List User → Option User
user_by_email email [] = none
user_by_email email (u ∷ us) = if u.email == email then some u else user_by_email email us

unfoldable pub update_users : String → (User → User) → List User → List User
update_users id f [] = []
update_users id f (u ∷ us) = (if u.id == id then f u else u) ∷ update_users id f us

-- `create`; `id` is the new UUID.
unfoldable pub create_user : String → String → String → String → Bool → List User → List User
create_user id email password_hash display_name is_superadmin users =
    users
    ++ record {
      id = id;
      email = email;
      password_hash = password_hash;
      display_name = display_name;
      is_active = true;
      is_superadmin = is_superadmin;
      totp_secret = none;
      totp_enabled = false;
      backup_codes = none;
      session_version = 0;
    }
      ∷ []

abbrev same_role : RoleName → RoleName → Bool
same_role superadmin superadmin = true
same_role admin admin = true
same_role analyst analyst = true
same_role viewer viewer = true
same_role _ _ = false

unfoldable pub role_by_name : RoleName → List Role → Option Role
role_by_name name [] = none
role_by_name name (r ∷ rs) = if same_role r.name name then some r else role_by_name name rs

-- The row of a user in a tenant.
abbrev of_pair : String → String → UserTenantRole → Bool
of_pair user_id tenant_id r = r.user_id == user_id && r.tenant_id == tenant_id

unfoldable pub user_tenant_role : String → String → List UserTenantRole → Option UserTenantRole
user_tenant_role user_id tenant_id [] = none
user_tenant_role user_id tenant_id (r ∷ rs) =
    if of_pair user_id tenant_id r then some r else user_tenant_role user_id tenant_id rs

unfoldable pub set_role_id : String → String → ℕ → List UserTenantRole → List UserTenantRole
set_role_id user_id tenant_id role_id [] = []
set_role_id user_id tenant_id role_id (r ∷ rs) =
    if of_pair user_id tenant_id r
    then record r { role_id = role_id } ∷ rs
    else r ∷ set_role_id user_id tenant_id role_id rs

unfoldable pub assign_role :
    String → String → ℕ → Option String → List UserTenantRole → List UserTenantRole
assign_role user_id tenant_id role_id assigned_by rs =
    rs
    ++ record {
      user_id = user_id;
      tenant_id = tenant_id;
      role_id = role_id;
      assigned_by = assigned_by;
    }
      ∷ []

unfoldable pub get_user_roles : String → List UserTenantRole → List UserTenantRole
get_user_roles user_id rs = filter (λ r. r.user_id == user_id) rs

unfoldable pub list_active_superadmins : List User → List User
list_active_superadmins users = filter (λ u. u.is_superadmin && u.is_active) users

-- `_ROLE_MAP.get(role_id, RoleName.VIEWER)` of scottycore/services/users/service.py
unfoldable pub role_of_id : ℕ → RoleName
role_of_id n =
    if eqb n 2 then analyst else if eqb n 3 then admin else if eqb n 4 then superadmin else viewer
