-- ===== src/Admin/Dialogs.antt =====
-- internal/module/rbacmod/module.go: the confirmations of an assignment and of a revocation.
use telekube.Base.{
  ℕ, String, false, none, some, List, [], ◌∷◌, ◌==◌, string_keyed, if◌then◌else◌, ok, err, result,
  split_n,
}
use telekube.Entity.User.{role_viewer}
use telekube.Entity.Audit.{audit_status_success}
use telekube.Rbac.Repository.{RbacRepository}
use telekube.Rbac.Engine.{Engine, has_permission, set_role, assign_role, revoke_role}
use telekube.Rbac.Permissions.{admin_rbac_manage}
use telekube.Base.Numbers.{scan_int}

pub data Reply : Type 0 where
  denied : Reply
  invalid_data : Reply
  invalid_user_id : Reply
  failed : Reply
  assigned : ℕ → String → Reply
  revoked : ℕ → String → Reply

-- The entry of the audit log: the action, the user it is about and the role. Its other fields are the
-- sender's, the time and a fresh identifier.
pub record Entry : Type 0 where
  pub action : String
  pub target : ℕ
  pub role : String
  pub status : String

pub record Outcome (S : Type 0) : Type 0 where
  pub reply : Reply
  pub after : S
  pub audited : List Entry

abbrev pub stopped : {S : Type 0} → S → Reply → Outcome S
stopped s r = record { reply = r; after = s; audited = [] }

module _ {S : Type 0} (repo : RbacRepository S) where
  -- `fresh` is the identifier of the binding; that it cannot be stored does not matter.
  unfoldable pub assign : S → String → ℕ → String → Outcome S
  unfolding set_role assign_role
  assign s fresh user_id role_name = elim (set_role repo s user_id role_name) [
    | err e ↦ stopped s failed
    | ok s' ↦ record {
      reply = assigned user_id role_name;
      after = result s' (
          assign_role repo s' fresh
            (record { id = fresh; user_id = user_id; role_name = role_name; expires_at = none }));
      audited =
          record {
            action = "rbac.role.assign";
            target = user_id;
            role = role_name;
            status = audit_status_success;
          }
          ∷ [];
    }
  ]

  abbrev pub revocation : S → ℕ → String → Outcome S
  revocation s user_id role_name = record {
    reply = revoked user_id role_name;
    after = s;
    audited =
        record {
          action = "rbac.role.revoke";
          target = user_id;
          role = role_name;
          status = audit_status_success;
        }
        ∷ [];
  }

  unfoldable pub revoke : S → ℕ → String → Outcome S
  unfolding set_role revoke_role
  revoke s user_id role_name =
      if role_name == "__reset__"
      then elim (set_role repo s user_id role_viewer) [
        | err e ↦ stopped s failed
        | ok s' ↦ revocation s' user_id "all → viewer"
      ]
      else elim (revoke_role repo s user_id role_name) [
        | err e ↦ stopped s failed
        | ok s' ↦ revocation s' user_id role_name
      ]

  -- The checks that both dialogs make before they act on a user and a role.
  unfoldable pub with_target : Engine → S → ℕ → String → (ℕ → String → Outcome S) → Outcome S
  with_target engine s sender_id payload act =
      if result false (has_permission repo engine s sender_id admin_rbac_manage)
      then elim (split_n 2 payload) [
        | id_text ∷ role_name ∷ [] ↦ elim (scan_int id_text) [
          | none ↦ stopped s invalid_user_id
          | some user_id ↦ act user_id role_name
        ]
        | _ ↦ stopped s invalid_data
      ]
      else stopped s denied

  unfoldable pub handle_assign_confirm : Engine → S → ℕ → String → String → Outcome S
  unfolding with_target assign
  handle_assign_confirm engine s sender_id fresh payload =
      with_target engine s sender_id payload (assign s fresh)

  unfoldable pub handle_revoke_confirm : Engine → S → ℕ → String → Outcome S
  unfolding with_target revoke
  handle_revoke_confirm engine s sender_id payload =
      with_target engine s sender_id payload (revoke s)
