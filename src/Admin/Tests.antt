-- ===== src/Admin/Tests.antt =====
-- Role dialogs over the tables, and the theorems at concrete inputs.
use telekube.Base.{
  ℕ, true, ◌≡◌, refl, none, some, [], ◌∷◌, ok, if◌then◌else◌, ◌==◌, nat_keyed, ◌bar◌,
}
use telekube.Entity.User.{User, is_valid_role}
use telekube.Rbac.Engine.{Engine, new_engine, has_permission, is_super_admin}
use telekube.Storage.Roles.{RbacDb, rbac_repo, get_user_role, get_user_role_bindings}
use telekube.Base.Numbers.{scan_int}
use telekube.Admin.Dialogs.{assigned, revoked, handle_assign_confirm, handle_revoke_confirm}
use telekube.Admin.Effects.{get_user_role-handle_assign_confirm, handle_revoke_confirm-bindings}

negative_chat : scan_int "-5 and more" ≡ some 18446744073709551611
unfolding scan_int
negative_chat = refl

abbrev bob : User
bob = record {
  telegram_id = 8;
  username = "bob";
  display_name = "Bob";
  role = "admin";
  is_active = true;
  created_at = 1;
  updated_at = 1;
}

abbrev db : RbacDb
db = record {
  users = bob ∷ [];
  roles = [];
  bindings = record { id = "b"; user_id = 8; role_name = "deployer"; expires_at = none } ∷ [];
}

abbrev engine : Engine
engine = new_engine 0 "" (1 ∷ [])

get_user_role-handle_assign_confirm_example :
    ((handle_assign_confirm (rbac_repo 9 true "N") engine db 1 "N" ("8" bar "operator")).reply
      ≡ assigned 8 "operator")
    × ((j : ℕ)
        → get_user_role
            (handle_assign_confirm
              (rbac_repo 9 true "N")
              engine
              db
              1
              "N"
              ("8" bar "operator")).after
            j
          ≡ (if 8 == j then ok "operator" else get_user_role db j))
unfolding has_permission is_super_admin new_engine scan_int is_valid_role get_user_role
get_user_role-handle_assign_confirm_example =
    get_user_role-handle_assign_confirm 9 true "N" engine db 1 8 "8" "operator" "admin" refl refl
      refl refl refl

handle_revoke_confirm-bindings_example :
    ((handle_revoke_confirm (rbac_repo 9 true "N") engine db 1 ("8" bar "__reset__")).reply
      ≡ revoked 8 "all → viewer")
    × ((j : ℕ)
        → get_user_role_bindings
            (handle_revoke_confirm (rbac_repo 9 true "N") engine db 1 ("8" bar "__reset__")).after
            j
          ≡ get_user_role_bindings db j)
unfolding has_permission is_super_admin new_engine scan_int get_user_role
handle_revoke_confirm-bindings_example =
    handle_revoke_confirm-bindings 9 true "N" engine db 1 8 "8" "admin" refl refl refl refl
