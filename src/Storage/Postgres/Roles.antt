-- ===== src/Storage/Postgres/Roles.antt =====
-- internal/storage/postgres/rbac_repo.go: RBACRepo. The server enforces the foreign key of the bindings.
-- The statements that have no time are those of the SQLite repository.
use telekube.Base.{
  ℕ, String, true, none, some, List, [], ◌∷◌, ◌++◌, ◌==◌, string_keyed, if◌then◌else◌, any, not,
  message, Result, ok, err,
}
use telekube.Entity.Role.{Role, UserRoleBinding}
use telekube.Rbac.Repository.{RbacRepository}
use telekube.Storage.Roles.{
  RbacDb, get_user_role, update_role, get_role, list_roles, delete_role as delete_rows,
  get_user_role_bindings, delete_role_binding, list_all_bindings,
}

-- A user who is not there is no error: the number of rows is not looked at.
unfoldable pub set_user_role : (ℕ → ℕ) → ℕ → RbacDb → ℕ → String → Result RbacDb
unfolding update_role
set_user_role round now db id role =
    ok (record db { users = update_role (round now) db.users id role })

-- INSERT … ON CONFLICT (name) DO UPDATE; the table has no flat permissions.
unfoldable pub upsert_role : (ℕ → ℕ) → List Role → Role → List Role
upsert_role round [] role =
    record role { created_at = round role.created_at; permissions = [] } ∷ []
upsert_role round (r ∷ rest) role =
    if r.name == role.name
    then record r {
      display_name = role.display_name;
      description = role.description;
      rules = role.rules;
    }
      ∷ rest
    else r ∷ upsert_role round rest role

unfoldable pub create_role : (ℕ → ℕ) → RbacDb → Role → Result RbacDb
unfolding upsert_role
create_role round db role = ok (record db { roles = upsert_role round db.roles role })

-- ON DELETE CASCADE
unfoldable pub delete_role : RbacDb → String → Result RbacDb
unfolding delete_rows
delete_role db name = delete_rows true db name

unfoldable pub create_role_binding : (ℕ → ℕ) → String → RbacDb → UserRoleBinding → Result RbacDb
create_role_binding round fresh db b =
    let id = (if b.id == "" then fresh else b.id) in
    if any (λ c. c.id == id) db.bindings
    then err (message "duplicate key value violates unique constraint")
    else if not (any (λ r. r.name == b.role_name) db.roles)
    then err (message "insert or update on table violates foreign key constraint")
    else ok (record db {
      bindings =
          db.bindings
          ++ record b {
            id = id;
            expires_at = elim b.expires_at [ none ↦ none | some t ↦ some (round t) ];
          }
            ∷ [];
    })

unfoldable pub rbac_repo : (ℕ → ℕ) → ℕ → String → RbacRepository RbacDb
unfolding set_user_role create_role delete_role create_role_binding
rbac_repo round now fresh = record {
  get_user_role = get_user_role;
  set_user_role = set_user_role round now;
  create_role = create_role round;
  get_role = get_role;
  list_roles = list_roles;
  delete_role = delete_role;
  create_role_binding = create_role_binding round fresh;
  get_user_role_bindings = get_user_role_bindings;
  delete_role_binding = delete_role_binding;
  list_all_bindings = list_all_bindings;
}
