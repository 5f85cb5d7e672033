-- ===== src/Rbac/Tests.antt =====
-- Runs of the engine over the SQLite repository, and the theorems at concrete inputs.

use telekube.Base.{
  ℕ, String, true, false, ◌≡◌, refl, Option, none, some, List, [], ◌∷◌, ok, arith, any,
}
use telekube.Entity.User.{User}
use telekube.Entity.Role.{PolicyRule, Role, UserRoleBinding, matches, is_expired}
use telekube.Storage.Roles.{RbacDb, rbac_repo, get_user_role_bindings}
use telekube.Rbac.Defaults.{operator_perms, flat_perms_to_rules, split_perm}
use telekube.Rbac.Engine.{
  new_engine, PermissionRequest, authorize, has_permission, is_super_admin, scan_bindings,
  scan_rules,
}
use telekube.Rbac.Decision.{authorize-verdict, applies}
use telekube.Rbac.Hierarchy.{has_permission_mono}
use telekube.Rbac.FlatRules.{flat_perms_to_rules-contains}

abbrev rule : String → String → String → PolicyRule
rule action namespace effect = record {
  modules = "kubernetes" ∷ [];
  resources = "pods" ∷ [];
  actions = action ∷ [];
  clusters = "*" ∷ [];
  namespaces = namespace ∷ [];
  effect = effect;
}

abbrev role : String → List PolicyRule → Role
role name rules = record {
  name = name;
  display_name = name;
  description = "";
  rules = rules;
  is_builtin = false;
  created_at = 0;
  permissions = [];
}

abbrev binding : String → ℕ → String → Option ℕ → UserRoleBinding
binding id user_id role_name expires_at = record {
  id = id;
  user_id = user_id;
  role_name = role_name;
  expires_at = expires_at;
}

abbrev user : ℕ → String → User
user id role_name = record {
  telegram_id = id;
  username = "u";
  display_name = "U";
  role = role_name;
  is_active = true;
  created_at = 0;
  updated_at = 0;
}

-- User 7 may restart pods everywhere but in production.
abbrev db : RbacDb
db = record {
  users = user 7 "viewer" ∷ user 8 "operator" ∷ [];
  roles =
      role "restarter" (rule "restart" "*" "allow" ∷ [])
      ∷ role "careful" (rule "*" "production" "deny" ∷ [])
      ∷ [];
  bindings = binding "b1" 7 "restarter" none ∷ binding "b2" 7 "careful" (some 50) ∷ [];
}

abbrev restart_in : String → PermissionRequest
restart_in namespace = record {
  module_name = "kubernetes";
  resource = "pods";
  action = "restart";
  cluster = "prod-1";
  namespace = namespace;
}

authorize_denied :
    authorize (rbac_repo 0 true "") (new_engine 0 "" (1 ∷ [])) db 40 7 (restart_in "production")
    ≡ ok false
unfolding authorize scan_bindings scan_rules is_expired matches rbac_repo get_user_role_bindings
    new_engine is_super_admin
authorize_denied = refl

-- The deny role has expired.
authorize_expired :
    authorize (rbac_repo 0 true "") (new_engine 0 "" (1 ∷ [])) db 60 7 (restart_in "production")
    ≡ ok true
unfolding authorize scan_bindings scan_rules is_expired matches rbac_repo get_user_role_bindings
    new_engine is_super_admin
authorize_expired = refl

authorize-verdict_example :
    authorize (rbac_repo 0 true "") (new_engine 0 "" (1 ∷ [])) db 40 7 (restart_in "production")
    ≡ ok false
unfolding is_expired matches rbac_repo get_user_role_bindings new_engine is_super_admin
authorize-verdict_example =
    authorize-verdict (rbac_repo 0 true "") db 40 (new_engine 0 "" (1 ∷ [])) 7
      (restart_in "production")

has_permission_mono_example :
    has_permission (rbac_repo 0 true "") (new_engine 0 "" (1 ∷ [])) db 8 "kubernetes.pods.list"
    ≡ ok true
unfolding has_permission rbac_repo new_engine is_super_admin
has_permission_mono_example =
    has_permission_mono (rbac_repo 0 true "") db 0 "" (1 ∷ []) 0 1 7 8 "kubernetes.pods.list"
      (omega arith) refl refl refl refl

flat_perms_to_rules-contains_example :
    any (applies (restart_in "production")) (flat_perms_to_rules operator_perms "allow") ≡ true
unfolding split_perm
flat_perms_to_rules-contains_example =
    flat_perms_to_rules-contains (restart_in "production") operator_perms "allow"
      (record { module_name = refl; resource = refl; action = refl }) refl
