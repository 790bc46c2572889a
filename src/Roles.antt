-- ===== src/Roles.antt =====
-- Roles and the identity of a request: scottycore/core/schemas.py and `UserContext` of
-- scottycore/services/auth/schemas.py.
use fastapi_modular_template.Base.{ℕ, String, Bool, leb, Dict}

pub data RoleName : Type 0 where
  superadmin admin analyst viewer : RoleName

-- The value of the enumeration
unfoldable pub role_value : RoleName → String
role_value superadmin = "superadmin"
role_value admin = "admin"
role_value analyst = "analyst"
role_value viewer = "viewer"

-- ROLE_HIERARCHY
unfoldable pub role_hierarchy : RoleName → ℕ
role_hierarchy viewer = 1
role_hierarchy analyst = 2
role_hierarchy admin = 3
role_hierarchy superadmin = 4

unfoldable pub has_minimum_role : RoleName → RoleName → Bool
has_minimum_role user_role minimum = leb (role_hierarchy minimum) (role_hierarchy user_role)

pub record UserContext : Type 0 where
  pub user_id : String
  pub email : String
  pub display_name : String
  pub is_superadmin : Bool
  pub totp_enabled : Bool
  pub tenant_roles : Dict RoleName
