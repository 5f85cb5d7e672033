-- ===== src/Argocd/Services.antt =====
-- What internal/module/argocd calls: the permission check, the freezes, the approval checker, and the
-- client of pkg/argocd, whose answers over HTTP are arguments here.
use telekube.Base.{
  ℕ, String, Bool, Option, List, [], ◌∷◌, ◌==◌, string_keyed, if◌then◌else◌, errorf, Error, Result,
  ok, err,
}
use telekube.Entity.Freeze.{DeploymentFreeze}
use telekube.Entity.Audit.{AuditEntry}
use telekube.Approval.Manager.{ApprovalInput}

pub record SyncOpts : Type 0 where
  pub prune : Bool
  pub force : Bool
  pub dry_run : Bool

pub record ResourceDiff : Type 0 where
  pub kind : String
  pub name : String
  pub namespace : String
  pub diff : String
  pub live : String
  pub target : String

pub record DiffResult : Type 0 where
  pub app_name : String
  pub changed : ℕ
  pub added : ℕ
  pub removed : ℕ
  pub resources : List ResourceDiff

pub record SyncResult : Type 0 where
  pub phase : String
  pub message : String
  pub revision : String

pub record RollbackResult : Type 0 where
  pub phase : String
  pub message : String

-- The answers of an ArgoCD server. That to `DisableAutoSync` is only logged.
pub record Client : Type 0 where
  pub get_application_diff : String → Result DiffResult
  pub sync_application : String → SyncOpts → Result SyncResult
  pub get_application_history : String → Result (List ℕ)
  pub rollback_application : String → ℕ → Result RollbackResult

pub record Instance : Type 0 where
  pub name : String
  pub clusters : List String
  pub client : Client

unfoldable pub get_instance_by_name : List Instance → String → Result Instance
get_instance_by_name [] name = err (errorf "argocd instance %q not found" (name ∷ []))
get_instance_by_name (i ∷ rest) name =
    if i.name == name then ok i else get_instance_by_name rest name

-- The database and the approval manager behind the module, at the time of the call.
pub record Services (W : Type 0) : Type 0 where
  pub has_permission : W → ℕ → String → Result Bool
  pub get_active : W → Result (Option DeploymentFreeze)
  pub get_active_for_cluster : W → String → Result (Option DeploymentFreeze)
  pub create_freeze : W → DeploymentFreeze → Result W
  pub thaw : W → String → ℕ → Result W
  pub check_and_submit : W → ApprovalInput → Result (Bool × W)

-- What the user is shown.
pub data Reply : Type 0 where
  unidentified : Reply
  invalid_data : Reply
  invalid_duration : Reply
  forbidden : Reply
  frozen : DeploymentFreeze → Reply
  unknown_instance : Reply
  diff_preview : DiffResult → Reply
  history_failed : Reply
  no_history : Reply
  history : List ℕ → Reply
  awaiting_approval : Reply
  sync_failed : Error → Reply
  synced : SyncResult → Reply
  invalid_revision : Reply
  rollback_failed : Error → Reply
  rolled_back : RollbackResult → Reply
  freeze_failed : Reply
  freeze_created : DeploymentFreeze → Reply
  thaw_failed : Reply
  freeze_removed : Reply
  freeze_status : Option DeploymentFreeze → Reply

-- A request that changes an ArgoCD server.
pub data Call : Type 0 where
  sync : String → String → SyncOpts → Call
  rollback : String → String → ℕ → Call
  disable_auto_sync : String → String → Call

-- All that a handler does: its reply, the requests to ArgoCD, the audit entries, the state after it.
pub record Outcome (W : Type 0) : Type 0 where
  pub reply : Reply
  pub calls : List Call
  pub audited : List AuditEntry
  pub after : W

abbrev pub only : {W : Type 0} → W → Reply → Outcome W
only w r = record { reply = r; calls = []; audited = []; after = w }
