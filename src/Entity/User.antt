-- ===== src/Entity/User.antt =====
-- internal/entity/user.go: registered users and the names of their roles.
use telekube.Base.{ℕ, String, Bool, true, false, List, [], ◌∷◌, if◌then◌else◌, ◌==◌, string_keyed}

pub record User : Type 0 where
  pub telegram_id : ℕ
  pub username : String
  pub display_name : String
  pub role : String
  pub is_active : Bool
  pub created_at : ℕ
  pub updated_at : ℕ

abbrev pub role_admin : String
role_admin = "admin"

abbrev pub role_operator : String
role_operator = "operator"

abbrev pub role_viewer : String
role_viewer = "viewer"

abbrev pub role_super_admin : String
role_super_admin = "super-admin"

abbrev pub role_on_call : String
role_on_call = "on-call"

abbrev pub valid_roles : List String
valid_roles = role_super_admin ∷ role_admin ∷ role_operator ∷ role_viewer ∷ role_on_call ∷ []

-- The loop of `IsValidRole` over the names that are left.
unfoldable pub is_listed : List String → String → Bool
is_listed [] role = false
is_listed (r ∷ rest) role = if r == role then true else is_listed rest role

unfoldable pub is_valid_role : String → Bool
unfolding is_listed
is_valid_role role = is_listed valid_roles role
