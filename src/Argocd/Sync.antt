-- ===== src/Argocd/Sync.antt =====
-- internal/module/argocd/sync.go and rollback.go: the handlers of the sync buttons, and the one that
-- opens the rollback history.
use telekube.Base.{
  ℕ, String, Bool, true, false, Option, none, some, List, [], ◌∷◌, ◌==◌, string_keyed,
  if◌then◌else◌, not, Result, ok, err, result, split_n,
}
use Prim.Native.String.{◌++◌ as concat}
use telekube.Entity.User.{User}
use telekube.Entity.Freeze.{is_active}
use telekube.Entity.Audit.{audit_status_success, audit_status_error}
use telekube.Approval.Manager.{ApprovalInput}
use telekube.Rbac.Permissions.{argo_cd_apps_sync, argo_cd_apps_rollback}
use telekube.Argocd.Services.{
  SyncOpts, DiffResult, Instance, get_instance_by_name, Services, Reply, unidentified, invalid_data,
  forbidden, frozen, unknown_instance, diff_preview, history_failed, no_history, history,
  awaiting_approval, sync_failed, synced, sync, Outcome, only,
}

-- The diff that is shown where the server gives none.
abbrev pub empty_diff : String → DiffResult
empty_diff app = record { app_name = app; changed = 0; added = 0; removed = 0; resources = [] }

unfoldable pub preview : List Instance → String → String → Reply
unfolding get_instance_by_name
preview instances instance_name app = elim (get_instance_by_name instances instance_name) [
  | err e ↦ unknown_instance
  | ok i ↦ diff_preview (result (empty_diff app) (i.client.get_application_diff app))
]

unfoldable pub show_history : List Instance → String → String → Reply
unfolding get_instance_by_name
show_history instances instance_name app = elim (get_instance_by_name instances instance_name) [
  | err e ↦ unknown_instance
  | ok i ↦ elim (i.client.get_application_history app) [
    | err e ↦ history_failed
    | ok [] ↦ no_history
    | ok (h ∷ hs) ↦ history (h ∷ hs)
  ]
]

unfoldable pub opts_of : String → SyncOpts
opts_of mode = record {
  prune = mode == "sync_prune";
  force = mode == "sync_force";
  dry_run = false;
}

module _ {W : Type 0} (services : Services W) (instances : List Instance) (now : ℕ) where
  -- Runs the reply unless the freeze check finds an active freeze; a failed check finds none.
  unfoldable pub unless_frozen : W → String → Reply → Reply
  unfolding is_active
  unless_frozen w instance_name reply = elim (services.get_active_for_cluster w instance_name) [
    | ok (some f) ↦ if is_active now f then frozen f else reply
    | _ ↦ reply
  ]

  unfoldable pub handle_sync : W → Option User → String → Reply
  unfolding unless_frozen preview
  handle_sync w none payload = unidentified
  handle_sync w (some user) payload = elim (split_n 2 payload) [
    | instance_name ∷ app ∷ [] ↦
        if not (result false (services.has_permission w user.telegram_id argo_cd_apps_sync))
        then forbidden
        else unless_frozen w instance_name (preview instances instance_name app)
    | _ ↦ invalid_data
  ]

  unfoldable pub handle_rollback : W → Option User → String → Reply
  unfolding unless_frozen show_history
  handle_rollback w none payload = unidentified
  handle_rollback w (some user) payload = elim (split_n 2 payload) [
    | instance_name ∷ app ∷ [] ↦
        if not (result false (services.has_permission w user.telegram_id argo_cd_apps_rollback))
        then forbidden
        else unless_frozen w instance_name (show_history instances instance_name app)
    | _ ↦ invalid_data
  ]

  abbrev pub sync_input : User → String → String → String → ApprovalInput
  sync_input user instance_name app payload = record {
    user_id = user.telegram_id;
    username = user.username;
    action = "argocd.apps.sync";
    resource = app;
    cluster = instance_name;
    namespace = "";
    callback_data = payload;
  }

  -- The sync itself, after the approval check. `fresh` is the identifier of the audit entry.
  unfoldable pub run_sync : W → String → User → String → String → String → Outcome W
  unfolding get_instance_by_name opts_of
  run_sync w fresh user instance_name app mode =
      elim (get_instance_by_name instances instance_name) [
        | err e ↦ only w unknown_instance
        | ok i ↦
            let answer = i.client.sync_application app (opts_of mode) in
            record {
              reply = elim answer [ err e ↦ sync_failed e | ok r ↦ synced r ];
              calls = sync instance_name app (opts_of mode) ∷ [];
              audited =
                  record {
                    id = fresh;
                    user_id = user.telegram_id;
                    username = user.username;
                    action = "argocd.app.sync";
                    resource = concat "app/" app;
                    cluster = instance_name;
                    namespace = "";
                    chat_id = 0;
                    chat_type = "";
                    status = elim answer [
                      | err e ↦ audit_status_error
                      | ok r ↦ audit_status_success
                    ];
                    details = ("mode", mode) ∷ ("instance", instance_name) ∷ [];
                    error = elim answer [ err e ↦ some e | ok r ↦ none ];
                    occurred_at = now;
                  }
                  ∷ [];
              after = w;
            }
      ]

  -- What follows the answer of the approval check; a check that failed lets the sync through.
  unfoldable pub after_check :
      Result (Bool × W) → W → String → User → String → String → String → Outcome W
  unfolding run_sync
  after_check (ok (true, w')) w fresh user instance_name app mode = only w' awaiting_approval
  after_check (ok (false, w')) w fresh user instance_name app mode =
      run_sync w' fresh user instance_name app mode
  after_check (err e) w fresh user instance_name app mode =
      run_sync w fresh user instance_name app mode

  -- The handler over the parts of the payload.
  unfoldable pub confirm_parts : W → String → User → String → List String → Outcome W
  unfolding after_check
  confirm_parts w fresh user payload (instance_name ∷ app ∷ mode ∷ []) =
      after_check (services.check_and_submit w (sync_input user instance_name app payload)) w fresh
        user instance_name app mode
  confirm_parts w fresh user payload _ = only w invalid_data

  unfoldable pub handle_sync_confirm : W → String → Option User → String → Outcome W
  unfolding confirm_parts
  handle_sync_confirm w fresh none payload = only w unidentified
  handle_sync_confirm w fresh (some user) payload =
      confirm_parts w fresh user payload (split_n 3 payload)
