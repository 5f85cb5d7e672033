-- ===== src/Rbac/Repository.antt =====
-- internal/storage/storage.go: the `RBACRepository` interface. `S` is the state behind it: an
-- operation that succeeds returns the new state, and one that fails leaves the state as it was.
use telekube.Base.{ℕ, String, List, Result}
use telekube.Entity.Role.{Role, UserRoleBinding}

pub record RbacRepository (S : Type 0) : Type 0 where
  pub get_user_role : S → ℕ → Result String
  pub set_user_role : S → ℕ → String → Result S
  pub create_role : S → Role → Result S
  pub get_role : S → String → Result Role
  pub list_roles : S → Result (List Role)
  pub delete_role : S → String → Result S
  pub create_role_binding : S → UserRoleBinding → Result S
  pub get_user_role_bindings : S → ℕ → Result (List UserRoleBinding)
  pub delete_role_binding : S → ℕ → String → Result S
  pub list_all_bindings : S → Result (List UserRoleBinding)
