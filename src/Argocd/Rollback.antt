-- ===== src/Argocd/Rollback.antt =====
-- internal/module/argocd/rollback.go: the handler that rolls an application back.
use Prim.Native.String.{◌++◌ as concat}
use telekube.Base.{
  ℕ, String, Bool, true, false, Option, none, some, List, [], ◌∷◌, Result, ok, err, split_n,
}
use telekube.Entity.User.{User}
use telekube.Entity.Audit.{audit_status_success, audit_status_error}
use telekube.Approval.Manager.{ApprovalInput}
use telekube.Base.Numbers.{scan_int, print_int}
use telekube.Argocd.Services.{
  Instance, get_instance_by_name, Services, unidentified, invalid_data, unknown_instance,
  awaiting_approval, invalid_revision, rollback_failed, rolled_back, rollback, disable_auto_sync,
  Outcome, only,
}

module _ {W : Type 0} (services : Services W) (instances : List Instance) (now : ℕ) where
  abbrev pub rollback_input : User → String → String → String → ApprovalInput
  rollback_input user instance_name app payload = record {
    user_id = user.telegram_id;
    username = user.username;
    action = "argocd.apps.rollback";
    resource = app;
    cluster = instance_name;
    namespace = "";
    callback_data = payload;
  }

  -- The rollback itself. `fresh` is the identifier of the audit entry.
  unfoldable pub roll_back : W → String → User → String → String → ℕ → Outcome W
  unfolding get_instance_by_name print_int
  roll_back w fresh user instance_name app revision =
      elim (get_instance_by_name instances instance_name) [
        | err e ↦ only w unknown_instance
        | ok i ↦
            let answer = i.client.rollback_application app revision in
            record {
              reply = elim answer [ err e ↦ rollback_failed e | ok r ↦ rolled_back r ];
              calls =
                  rollback instance_name app revision
                  ∷ elim answer [ err e ↦ [] | ok r ↦ disable_auto_sync instance_name app ∷ [] ];
              audited =
                  record {
                    id = fresh;
                    user_id = user.telegram_id;
                    username = user.username;
                    action = "argocd.app.rollback";
                    resource = concat "app/" app;
                    cluster = instance_name;
                    namespace = "";
                    chat_id = 0;
                    chat_type = "";
                    status = elim answer [
                      | err e ↦ audit_status_error
                      | ok r ↦ audit_status_success
                    ];
                    details = ("revision", print_int revision) ∷ ("instance", instance_name) ∷ [];
                    error = elim answer [ err e ↦ some e | ok r ↦ none ];
                    occurred_at = now;
                  }
                  ∷ [];
              after = w;
            }
      ]

  -- What follows the approval check; fmt.Sscanf reads the revision.
  unfoldable pub with_revision : W → String → User → String → String → String → Outcome W
  unfolding scan_int roll_back
  with_revision w fresh user instance_name app rev_id = elim (scan_int rev_id) [
    | none ↦ only w invalid_revision
    | some revision ↦ roll_back w fresh user instance_name app revision
  ]

  unfoldable pub after_rollback_check :
      Result (Bool × W) → W → String → User → String → String → String → Outcome W
  unfolding with_revision
  after_rollback_check (ok (true, w')) w fresh user instance_name app rev_id =
      only w' awaiting_approval
  after_rollback_check (ok (false, w')) w fresh user instance_name app rev_id =
      with_revision w' fresh user instance_name app rev_id
  after_rollback_check (err e) w fresh user instance_name app rev_id =
      with_revision w fresh user instance_name app rev_id

  unfoldable pub rollback_parts : W → String → User → String → List String → Outcome W
  unfolding after_rollback_check
  rollback_parts w fresh user payload (instance_name ∷ app ∷ rev_id ∷ []) =
      after_rollback_check
        (services.check_and_submit w (rollback_input user instance_name app payload)) w fresh user
        instance_name app rev_id
  rollback_parts w fresh user payload _ = only w invalid_data

  unfoldable pub handle_rollback_confirm : W → String → Option User → String → Outcome W
  unfolding rollback_parts
  handle_rollback_confirm w fresh none payload = only w unidentified
  handle_rollback_confirm w fresh (some user) payload =
      rollback_parts w fresh user payload (split_n 3 payload)
