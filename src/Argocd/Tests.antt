-- ===== src/Argocd/Tests.antt =====
-- Runs of the ArgoCD handlers over the SQLite tables, and the theorems at concrete inputs.
use telekube.Base.{
  ℕ, ◌+◌, nat_keyed, if◌then◌else◌, ◌==◌, String, true, false, ◌≡◌, ◌-◌, ◌^◌, refl, none, some,
  List, [], ◌∷◌, string_keyed, ok, err, not_found, arith, ◌bar◌, split_n,
}
use telekube.Entity.User.{User}
use telekube.Entity.Freeze.{DeploymentFreeze, is_active}
use telekube.Approval.Manager.{Config}
use telekube.Rbac.Engine.{Engine, new_engine, has_permission, is_super_admin}
use telekube.Storage.Freezes.{covers, get_active_for_cluster}
use telekube.Argocd.Services.{Outcome, Client, Instance, get_instance_by_name, frozen, diff_preview}
use telekube.Argocd.Sync.{handle_sync, handle_sync_confirm, preview, empty_diff}
use telekube.Argocd.Freezing.{handle_freeze_confirm}
use telekube.Argocd.Rollback.{handle_rollback_confirm}
use telekube.Base.Numbers.{print_int, digits, digit_of}
use telekube.Argocd.Requests.{Attempt, settled, do_json, default_max_retries}
use telekube.Argocd.Requests.Retries.{do_json-answers}
use telekube.Argocd.Audited.{Records, handle_confirm-IsAudited}
use telekube.Argocd.Gate.{
  World, services, handle_sync-unless_frozen, handle_sync-handle_freeze_confirm,
}
use telekube.Argocd.Gate.Unguarded.{SameReply, handle_sync_confirm_unguarded}

abbrev client : Client
client = record {
  get_application_diff = λ app. err not_found;
  sync_application = λ app opts. ok (record { phase = "Succeeded"; message = ""; revision = "a1" });
  get_application_history = λ app. ok [];
  rollback_application = λ app revision. ok (record { phase = "Succeeded"; message = "" });
}

abbrev instances : List Instance
instances = record { name = "main"; clusters = "prod-1" ∷ []; client = client } ∷ []

abbrev engine : Engine
engine = new_engine 0 "" (1 ∷ [])

abbrev cfg : Config
cfg = record { enabled = false; rules = []; default_expiry = 60 }

abbrev root : User
root = record {
  telegram_id = 1;
  username = "root";
  display_name = "Root";
  role = "admin";
  is_active = true;
  created_at = 0;
  updated_at = 0;
}

abbrev freeze : String → String → DeploymentFreeze
freeze id scope = record {
  id = id;
  scope = scope;
  reason = "";
  created_by = 1;
  created_at = 5;
  expires_at = 100;
  thawed_at = none;
  thawed_by = none;
}

abbrev world : List DeploymentFreeze → World
world freezes = record {
  db = record { users = root ∷ []; roles = []; bindings = [] };
  approvals = [];
  freezes = freezes;
}

-- The freeze of the cluster behind the instance does not stop the instance's sync.
cluster_freeze :
    handle_sync
      (services engine cfg 20 "" none 0)
      instances
      20
      (world (freeze "F" "prod-1" ∷ []))
      (some root)
      "main|shop"
    ≡ diff_preview (empty_diff "shop")
unfolding handle_sync services has_permission is_super_admin new_engine preview get_instance_by_name
    covers is_active split_n get_active_for_cluster
cluster_freeze = refl

handle_sync-unless_frozen_example :
    (f : DeploymentFreeze) × (covers 20 "main" f ≡ true)
    × (handle_sync
          (services engine cfg 20 "" none 0)
          instances
          20
          (world (freeze "F" "all" ∷ []))
          (some root)
          ("main" bar "shop")
        ≡ frozen f)
unfolding has_permission is_super_admin new_engine covers is_active
handle_sync-unless_frozen_example =
    (handle_sync-unless_frozen engine cfg 20 "" none 0 instances (world (freeze "F" "all" ∷ []))
        root "main" "shop" refl refl).0
      refl

handle_sync_confirm_unguarded_example :
    SameReply
      (handle_sync_confirm
        (services engine cfg 20 "" none 0)
        instances
        20
        (world [])
        "E"
        (some root)
        "main|shop|sync_now")
      (handle_sync_confirm
        (services engine cfg 20 "" none 0)
        instances
        20
        (world (freeze "F" "all" ∷ []))
        "E"
        (some root)
        "main|shop|sync_now")
handle_sync_confirm_unguarded_example =
    handle_sync_confirm_unguarded engine cfg 20 "" none 0 instances (world [])
      (freeze "F" "all" ∷ []) "E" (some root) "main|shop|sync_now"

handle_sync-handle_freeze_confirm_example :
    (f : DeploymentFreeze) × (handle_sync
        (services engine cfg 20 "" none 0)
        instances
        20
        (handle_freeze_confirm
          (services engine cfg 5 "" none 0)
          5
          (world [])
          "F"
          "E"
          (some root)
          ("all" bar "1h")
          (ok 60)).after
        (some root)
        ("main" bar "shop")
      ≡ frozen f)
unfolding has_permission is_super_admin new_engine
handle_sync-handle_freeze_confirm_example =
    handle_sync-handle_freeze_confirm engine cfg 20 "" none 0 instances (world []) root root 5 60
      "F" "E" "1h" "main" "shop" refl (omega arith) refl refl

printed : (print_int 120 ≡ "120") × (print_int (2 ^ 64 - 7) ≡ "-7")
unfolding print_int digits digit_of
printed = (refl, refl)

abbrev synced_main : Outcome World
synced_main =
    handle_sync_confirm (services engine cfg 20 "" none 0) instances 20 (world []) "a1" (some root)
      "main|web|12"

abbrev rolled_back_main : Outcome World
rolled_back_main =
    handle_rollback_confirm (services engine cfg 20 "" none 0) instances 20 (world []) "a1"
      (some root) "main|web|12"

handle_confirm-IsAudited_example :
    Records instances root 20 synced_main.calls synced_main.audited
    × Records instances root 20 rolled_back_main.calls rolled_back_main.audited
handle_confirm-IsAudited_example =
    handle_confirm-IsAudited (services engine cfg 20 "" none 0) instances 20 (world []) "a1" root
      "main|web|12"

-- The server fails once, then answers.
abbrev attempts : ℕ → Attempt
attempts n = record {
  cancelled = false;
  auth = ok tt;
  answer =
      if n == 0
      then ok (record { status_code = 503; body = "" })
      else ok (record { status_code = 200; body = "a1" });
}

do_json-answers_example :
    do_json attempts (λ body. ok body) 3
    ≡ (settled attempts (λ body. ok body) (record { status_code = 200; body = "a1" }), 1 + 1)
do_json-answers_example =
    do_json-answers attempts (λ body. ok body) 1 3 (record { status_code = 200; body = "a1" })
      (omega arith) (λ i lt. ground arith) (λ i le lt. refl) refl refl (omega arith)

-- A sync that the server keeps failing is sent three times.
sync_sent_thrice :
    (do_json {A = String}
      (λ n. record { cancelled = false; auth = ok tt; answer = err not_found })
      (λ body. ok body)
      default_max_retries).1
    ≡ 3
unfolding do_json
sync_sent_thrice = refl
