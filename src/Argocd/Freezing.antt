-- ===== src/Argocd/Freezing.antt =====
-- internal/module/argocd/freeze.go: the handlers that create, thaw and show freezes. The duration that
-- time.ParseDuration reads from the button's text is an argument, as the module offers six fixed ones.
use Prim.Native.String.{◌++◌ as concat}
use telekube.Base.{
  ℕ, ◌+◌, String, false, Option, none, some, List, [], ◌∷◌, if◌then◌else◌, not, Result, ok, err,
  result, split_n,
}
use telekube.Entity.User.{User}
use telekube.Entity.Freeze.{DeploymentFreeze, is_active}
use telekube.Entity.Audit.{AuditEntry, audit_status_success}
use telekube.Rbac.Permissions.{argo_cd_freeze_manage}
use telekube.Argocd.Services.{
  Services, Reply, unidentified, invalid_data, invalid_duration, forbidden, freeze_failed,
  freeze_created, thaw_failed, freeze_removed, freeze_status, Outcome, only,
}

abbrev pub freeze_audit :
    String → User → String → String → String → List (String × String) → ℕ → AuditEntry
freeze_audit fresh user action id scope details now = record {
  id = fresh;
  user_id = user.telegram_id;
  username = user.username;
  action = action;
  resource = concat "freeze/" id;
  cluster = scope;
  namespace = "";
  chat_id = 0;
  chat_type = "";
  status = audit_status_success;
  details = details;
  error = none;
  occurred_at = now;
}

-- The freeze that a confirmation creates.
unfoldable pub new_freeze : String → String → User → ℕ → ℕ → DeploymentFreeze
new_freeze id scope user now d = record {
  id = id;
  scope = scope;
  reason = "";
  created_by = user.telegram_id;
  created_at = now;
  expires_at = now + d;
  thawed_at = none;
  thawed_by = none;
}

module _ {W : Type 0} (services : Services W) (now : ℕ) where
  unfoldable pub send_freeze_status : W → Reply
  unfolding is_active
  send_freeze_status w = elim (services.get_active w) [
    | err e ↦ freeze_failed
    | ok none ↦ freeze_status none
    | ok (some f) ↦ if is_active now f then freeze_status (some f) else freeze_status none
  ]

  unfoldable pub handle_freeze : W → Option User → Reply
  unfolding send_freeze_status
  handle_freeze w none = unidentified
  handle_freeze w (some user) =
      if not (result false (services.has_permission w user.telegram_id argo_cd_freeze_manage))
      then forbidden
      else send_freeze_status w

  -- `id` and `fresh` are the identifiers that ulid makes for the freeze and the audit entry.
  unfoldable pub handle_freeze_confirm :
      W → String → String → Option User → String → Result ℕ → Outcome W
  unfolding new_freeze
  handle_freeze_confirm w id fresh none payload d = only w unidentified
  handle_freeze_confirm w id fresh (some user) payload d = elim (split_n 2 payload) [
    | scope ∷ duration ∷ [] ↦ elim d [
      | err e ↦ only w invalid_duration
      | ok d ↦
          let f = new_freeze id scope user now d in
          elim (services.create_freeze w f) [
            | err e ↦ only w freeze_failed
            | ok w' ↦ record {
              reply = freeze_created f;
              calls = [];
              audited =
                  freeze_audit fresh user "argocd.freeze.create" id scope
                    (("scope", scope) ∷ ("duration", duration) ∷ []) now
                  ∷ [];
              after = w';
            }
          ]
    ]
    | _ ↦ only w invalid_data
  ]

  unfoldable pub handle_freeze_thaw : W → String → Option User → String → Outcome W
  handle_freeze_thaw w fresh none id = only w unidentified
  handle_freeze_thaw w fresh (some user) id = elim (services.thaw w id user.telegram_id) [
    | err e ↦ only w thaw_failed
    | ok w' ↦ record {
      reply = freeze_removed;
      calls = [];
      audited =
          freeze_audit fresh user "argocd.freeze.thaw" id "" (("freeze_id", id) ∷ []) now ∷ [];
      after = w';
    }
  ]
