-- ===== src/Rbac/Engine.antt =====
-- internal/rbac/engine.go, over any repository. `now` is the clock that an expiry is compared with.
use Prim.Native.String.{◌++◌ as concat}
use telekube.Base.{
  ℕ, String, Bool, true, false, Option, none, some, List, [], ◌∷◌, ◌==◌, nat_keyed, string_keyed,
  if◌then◌else◌, contains, message, errorf, wrapped, Result, ok, err, ◌>>=◌, is_not_found, get, put,
}
use telekube.Entity.User.{role_viewer, role_admin, is_valid_role}
use telekube.Entity.Role.{PolicyRule, matches, Role, UserRoleBinding, is_expired}
use telekube.Rbac.Repository.{RbacRepository}
use telekube.Rbac.Defaults.{default_roles}

pub record PermissionRequest : Type 0 where
  pub module_name : String
  pub resource : String
  pub action : String
  pub cluster : String
  pub namespace : String

-- The maps of the struct, without the repository, which is a parameter below.
pub record Engine : Type 0 where
  pub super_admins : List ℕ
  pub default_role : String
  pub builtin_roles : List (String × Role)
  pub builtin_perms : List (String × List String)

-- The loop of `initDefaultRoles`.
unfoldable pub add_roles : List Role → Engine → Engine
add_roles [] e = e
add_roles (r ∷ rest) e = add_roles rest (record e {
  builtin_roles = put e.builtin_roles r.name r;
  builtin_perms = put e.builtin_perms r.name r.permissions;
})

unfoldable pub init_default_roles : ℕ → Engine → Engine
unfolding add_roles default_roles
init_default_roles now e = add_roles (default_roles now) e

unfoldable pub new_engine : ℕ → String → List ℕ → Engine
unfolding init_default_roles
new_engine now default_role admin_ids = init_default_roles now (record {
  super_admins = admin_ids;
  default_role = if default_role == "" then role_viewer else default_role;
  builtin_roles = [];
  builtin_perms = [];
})

unfoldable pub is_super_admin : Engine → ℕ → Bool
is_super_admin e user_id = contains e.super_admins user_id

unfoldable pub role_permissions : Engine → String → List String
role_permissions e role = elim (get e.builtin_roles role) [ none ↦ [] | some r ↦ r.permissions ]

-- fmt.Sprintf("%s.%s.%s", …)
abbrev pub flat_perm : PermissionRequest → String
flat_perm req = concat req.module_name (concat "." (concat req.resource (concat "." req.action)))

-- What the loops over bindings and rules have found: a deny rule, which returns at once, or the two
-- flags `allowed` and `hasAnyMatch`.
pub data Scan : Type 0 where
  denied : Scan
  seen : Bool → Bool → Scan

-- The loop over the rules of one role.
unfoldable pub scan_rules : List PolicyRule → PermissionRequest → Bool → Bool → Scan
scan_rules [] req allowed has_any = seen allowed has_any
scan_rules (rule ∷ rest) req allowed has_any =
    elim (matches rule req.module_name req.resource req.action req.cluster req.namespace) [
      | false ↦ scan_rules rest req allowed has_any
      | true ↦ elim (rule.effect == "deny") [
        | true ↦ denied
        | false ↦ scan_rules rest req true true
      ]
    ]

module _ {S : Type 0} (repo : RbacRepository S) where
  -- The loop over the bindings.
  unfoldable pub scan_bindings :
      S → ℕ → PermissionRequest → List UserRoleBinding → Bool → Bool → Scan
  scan_bindings s now req [] allowed has_any = seen allowed has_any
  scan_bindings s now req (b ∷ rest) allowed has_any = elim (is_expired now b) [
    | true ↦ scan_bindings s now req rest allowed has_any
    | false ↦ elim (repo.get_role s b.role_name) [
      | err e ↦ scan_bindings s now req rest allowed has_any
      | ok role ↦ elim (scan_rules role.rules req allowed has_any) [
        | denied ↦ denied
        | seen allowed' has_any' ↦ scan_bindings s now req rest allowed' has_any'
      ]
    ]
  ]

  unfoldable pub get_role : Engine → S → ℕ → Result String
  get_role e s user_id =
      if is_super_admin e user_id then ok role_admin else elim (repo.get_user_role s user_id) [
        | ok role ↦ ok role
        | err x ↦
            if is_not_found x then ok e.default_role else err (wrapped "getting user role: %w" x)
      ]

  unfoldable pub has_permission : Engine → S → ℕ → String → Result Bool
  unfolding get_role
  has_permission e s user_id permission = if is_super_admin e user_id then ok true else do
    role ← get_role e s user_id
    ok (elim (get e.builtin_perms role) [ none ↦ false | some perms ↦ contains perms permission ])

  -- The decision of the bindings: nothing if no rule of a live binding matches, so that the legacy
  -- check decides. A read that fails counts as no bindings.
  unfoldable pub bindings_decision :
      S → ℕ → PermissionRequest → Result (List UserRoleBinding) → Option Bool
  unfolding scan_bindings
  bindings_decision s now req (err e) = none
  bindings_decision s now req (ok bindings) = elim (scan_bindings s now req bindings false false) [
    | denied ↦ some false
    | seen allowed has_any ↦ if has_any then some allowed else none
  ]

  unfoldable pub authorize : Engine → S → ℕ → ℕ → PermissionRequest → Result Bool
  unfolding has_permission bindings_decision
  authorize e s now user_id req =
      if is_super_admin e user_id
      then ok true
      else elim (bindings_decision s now req (repo.get_user_role_bindings s user_id)) [
        | some allowed ↦ ok allowed
        | none ↦ has_permission e s user_id (flat_perm req)
      ]

  unfoldable pub set_role : S → ℕ → String → Result S
  unfolding is_valid_role
  set_role s user_id role =
      if is_valid_role role
      then repo.set_user_role s user_id role
      else err (errorf "invalid role: %s" (role ∷ []))

  unfoldable pub create_role : S → Role → Result S
  create_role s role =
      if role.name == "" then err (message "role name is required") else repo.create_role s role

  -- `fresh` is the ULID that is drawn if the binding has no identifier.
  unfoldable pub assign_role : S → String → UserRoleBinding → Result S
  assign_role s fresh b =
      if b.user_id == 0
      then err (message "user_id is required")
      else if b.role_name == ""
      then err (message "role_name is required")
      else repo.create_role_binding s (if b.id == "" then record b { id = fresh } else b)

  unfoldable pub revoke_role : S → ℕ → String → Result S
  revoke_role = repo.delete_role_binding
