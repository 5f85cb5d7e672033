-- ===== src/Storage/Roles.antt =====
-- internal/storage/sqlite/rbac_repo.go, the `rbacRepo`: roles and bindings. `fk` says whether the
-- connection that runs a statement enforces foreign keys: the pragma is set on one connection of the
-- pool.
use Prim.Native.String.{compare}
use text.Mathlib.Text.{is_le}
use telekube.Base.{
  ℕ, ◌+◌, ◌*◌, ◌/◌, ◌%◌, ◌^◌, leb, String, Bool, ◌&&◌, not, Option, none, some, List, [], ◌∷◌, ◌++◌,
  ◌==◌, nat_keyed, string_keyed, if◌then◌else◌, any, select, not_found, message, Result, ok, err,
}
use telekube.Entity.User.{User}
use telekube.Entity.Role.{Role, UserRoleBinding}
use telekube.Rbac.Repository.{RbacRepository}

pub record RbacDb : Type 0 where
  pub users : List User
  pub roles : List Role
  pub bindings : List UserRoleBinding

-- A time that went through time.RFC3339 has lost its part of a second.
abbrev pub to_seconds : ℕ → ℕ
to_seconds t = t / 1_000_000_000 * 1_000_000_000

abbrev pub to_seconds? : Option ℕ → Option ℕ
to_seconds? none = none
to_seconds? (some t) = some (to_seconds t)

unfoldable pub role_of : List User → ℕ → Result String
role_of [] id = err not_found
role_of (u ∷ rest) id = if u.telegram_id == id then ok u.role else role_of rest id

unfoldable pub get_user_role : RbacDb → ℕ → Result String
unfolding role_of
get_user_role db id = role_of db.users id

-- UPDATE users SET role = ?, updated_at = … WHERE telegram_id = ?
unfoldable pub update_role : ℕ → List User → ℕ → String → List User
update_role now [] id role = []
update_role now (u ∷ rest) id role =
    (if u.telegram_id == id then record u { role = role; updated_at = now } else u)
    ∷ update_role now rest id role

unfoldable pub set_user_role : ℕ → RbacDb → ℕ → String → Result RbacDb
unfolding update_role
set_user_role now db id role =
    if any (λ u. u.telegram_id == id) db.users
    then ok (record db { users = update_role now db.users id role })
    else err not_found

-- INSERT … ON CONFLICT(name) DO UPDATE; the table has no flat permissions.
unfoldable pub upsert_role : List Role → Role → List Role
upsert_role [] role = record role { created_at = to_seconds role.created_at; permissions = [] } ∷ []
upsert_role (r ∷ rest) role =
    if r.name == role.name
    then record r {
      display_name = role.display_name;
      description = role.description;
      rules = role.rules;
    }
      ∷ rest
    else r ∷ upsert_role rest role

unfoldable pub create_role : RbacDb → Role → Result RbacDb
unfolding upsert_role
create_role db role = ok (record db { roles = upsert_role db.roles role })

unfoldable pub find_role : List Role → String → Result Role
find_role [] name = err not_found
find_role (r ∷ rest) name = if r.name == name then ok r else find_role rest name

unfoldable pub get_role : RbacDb → String → Result Role
unfolding find_role
get_role db name = find_role db.roles name

-- ORDER BY name
unfoldable pub insert_by_name : Role → List Role → List Role
insert_by_name r [] = r ∷ []
insert_by_name r (q ∷ rest) =
    if is_le (compare r.name q.name) then r ∷ q ∷ rest else q ∷ insert_by_name r rest

unfoldable pub sort_by_name : List Role → List Role
unfolding insert_by_name
sort_by_name [] = []
sort_by_name (r ∷ rest) = insert_by_name r (sort_by_name rest)

unfoldable pub list_roles : RbacDb → Result (List Role)
unfolding sort_by_name
list_roles db = ok (sort_by_name db.roles)

-- ON DELETE CASCADE removes the bindings of the role too.
unfoldable pub delete_role : Bool → RbacDb → String → Result RbacDb
delete_role fk db name = ok (record db {
  roles = select (λ r. not (r.name == name)) db.roles;
  bindings = select (λ b. not (fk && b.role_name == name)) db.bindings;
})

unfoldable pub create_role_binding : Bool → String → RbacDb → UserRoleBinding → Result RbacDb
create_role_binding fk fresh db b =
    let id = (if b.id == "" then fresh else b.id) in
    if any (λ c. c.id == id) db.bindings
    then err (message "UNIQUE constraint failed: user_role_bindings.id")
    else if fk && not (any (λ r. r.name == b.role_name) db.roles)
    then err (message "FOREIGN KEY constraint failed")
    else ok (record db {
      bindings = db.bindings ++ record b { id = id; expires_at = to_seconds? b.expires_at } ∷ [];
    })

unfoldable pub get_user_role_bindings : RbacDb → ℕ → Result (List UserRoleBinding)
get_user_role_bindings db id = ok (select (λ b. b.user_id == id) db.bindings)

unfoldable pub delete_role_binding : RbacDb → ℕ → String → Result RbacDb
delete_role_binding db id name = ok (record db {
  bindings = select (λ b. not (b.user_id == id && b.role_name == name)) db.bindings;
})

-- ORDER BY user_id, of signed integers: the pattern of a negative number has its top bit set.
unfoldable pub signed_le : ℕ → ℕ → Bool
signed_le a b = let shift : ℕ → ℕ = λ n. (n + 2 ^ 63) % 2 ^ 64 in leb (shift a) (shift b)

unfoldable pub insert_by_user : UserRoleBinding → List UserRoleBinding → List UserRoleBinding
unfolding signed_le
insert_by_user b [] = b ∷ []
insert_by_user b (c ∷ rest) =
    if signed_le b.user_id c.user_id then b ∷ c ∷ rest else c ∷ insert_by_user b rest

unfoldable pub sort_by_user : List UserRoleBinding → List UserRoleBinding
unfolding insert_by_user
sort_by_user [] = []
sort_by_user (b ∷ rest) = insert_by_user b (sort_by_user rest)

unfoldable pub list_all_bindings : RbacDb → Result (List UserRoleBinding)
unfolding sort_by_user
list_all_bindings db = ok (sort_by_user db.bindings)

-- The repository that the engine is given.
unfoldable pub rbac_repo : ℕ → Bool → String → RbacRepository RbacDb
unfolding get_user_role set_user_role create_role get_role list_roles delete_role
rbac_repo now fk fresh = record {
  get_user_role = get_user_role;
  set_user_role = set_user_role now;
  create_role = create_role;
  get_role = get_role;
  list_roles = list_roles;
  delete_role = delete_role fk;
  create_role_binding = create_role_binding fk fresh;
  get_user_role_bindings = get_user_role_bindings;
  delete_role_binding = delete_role_binding;
  list_all_bindings = list_all_bindings;
}
