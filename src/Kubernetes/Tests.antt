-- ===== src/Kubernetes/Tests.antt =====
-- Runs of the Kubernetes handlers against a server of two pods, and the theorems at concrete inputs.
use telekube.Base.{
  ℕ, ◌*◌, ◌+◌, ◌-◌, ◌==◌, String, string_keyed, true, false, ◌≡◌, ◌≢◌, ◌⊎◌, ◌↔◌, ◌<◌, ◌≤◌, refl,
  some, List, [], ◌∷◌, map, select, count_if, length, ltb, split_n, if◌then◌else◌, ◌bar◌, ok, err,
  not_found, Error, arith,
}
use telekube.Entity.User.{User}
use telekube.Entity.Audit.{audit_status_success, audit_status_error}
use telekube.Telegram.Paginator.{new_paginator, total_pages}
use telekube.Kubernetes.Api.{
  Workload, Pod, Node, ClientSet, Services, update_node, update_deployment_scale,
  update_stateful_set_scale, button, drained, screen, slice_panic,
}
use telekube.Kubernetes.Drain.{is_daemon_set_pod, perform_drain}
use telekube.Kubernetes.Drain.Counting.{
  is_refused, is_evictable, eviction, statuses, perform_drain-requests,
}
use telekube.Kubernetes.Scale.{get_workload, handle_scale_set, handle_scale_confirm}
use telekube.Kubernetes.Scale.Buttons.{scale_payload, handle_scale_confirm-handle_scale_set}
use telekube.Kubernetes.Pods.{page_payload, page_size, handle_pods_page}
use telekube.Kubernetes.Pods.Paging.{handle_pods_page_panics}
use telekube.Kubernetes.Rollout.{ticks, progress, complete, watch_rollout}
use telekube.Kubernetes.Namespaces.{ttl}
use telekube.Kubernetes.Namespaces.Freshness.{Call, call, run, Fetched, get_namespaces-run}

abbrev web : Pod
web = record {
  name = "web";
  namespace = "shop";
  owner_kinds = "ReplicaSet" ∷ [];
  waiting_reasons = [];
  is_deleted = false;
  phase = "Running";
}

abbrev agent : Pod
agent = record web { name = "agent"; owner_kinds = "DaemonSet" ∷ [] }

abbrev worker : Node
worker = record { name = "n1"; unschedulable = false; conditions = [] }

abbrev api : Workload
api = record {
  name = "api";
  namespace = "shop";
  replicas = some 2;
  ready_replicas = 2;
  available_replicas = 2;
}

-- It refuses evictions of the pod `web`.
abbrev clients : ClientSet
clients = record {
  list_namespaces = ok ("shop" ∷ []);
  list_deployments = λ namespace. ok (api ∷ []);
  list_stateful_sets = λ namespace. ok [];
  get_deployment = λ namespace name. ok api;
  get_stateful_set = λ namespace name. err not_found;
  update_deployment_scale = λ namespace name n. ok tt;
  update_stateful_set_scale = λ namespace name n. err not_found;
  list_nodes = ok (worker ∷ []);
  get_node = λ name. ok worker;
  update_node = λ node. ok tt;
  list_pods = λ namespace. ok (web ∷ agent ∷ []);
  list_pods_on = λ name. ok (web ∷ agent ∷ []);
  get_pod = λ namespace name. ok web;
  delete_pod = λ namespace name. ok tt;
  evict = λ namespace name. if name == "web" then err not_found else ok tt;
}

abbrev services : Services ℕ
services = record {
  has_permission = λ w id permission. ok false;
  check_and_submit = λ w input. ok (false, w + 1);
  client_set = λ name. ok clients;
  get_cluster = λ id. "prod-1";
}

abbrev root : User
root = record {
  telegram_id = 1;
  username = "root";
  display_name = "Root";
  role = "admin";
  is_active = true;
  created_at = 0;
  updated_at = 0;
}

-- A kind that is unknown is scaled with success, and without a request.
unknown_kind_scales :
    (handle_scale_confirm services 5 "A" 0 (some root) "job|api|shop|prod-1|3").requests ≡ []
unfolding handle_scale_confirm split_n
unknown_kind_scales = refl

unknown_kind_audits :
    statuses (handle_scale_confirm services 5 "A" 0 (some root) "job|api|shop|prod-1|3").audited
    ≡ audit_status_success ∷ []
unfolding handle_scale_confirm split_n
unknown_kind_audits = refl

-- The confirmation takes more than the limit of the dialog.
above_limit_scales :
    (handle_scale_confirm services 5 "A" 0 (some root) "deploy|api|shop|prod-1|900").requests
    ≡ update_deployment_scale "prod-1" "shop" "api" 900 ∷ []
unfolding handle_scale_confirm split_n
above_limit_scales = refl

rollout_stops :
    watch_rollout "deploy" 2
      (ticks (ok (record api { ready_replicas = 1 })) ∷ ticks (ok api) ∷ ticks (ok api) ∷ [])
    ≡ progress 1 ∷ complete 2 ∷ []
unfolding watch_rollout
rollout_stops = refl

perform_drain-requests_example :
    (evicted : ℕ) × ((perform_drain services 5 "A" 0 root "n1" "prod-1").requests
      ≡ update_node "prod-1" (record worker { unschedulable = true })
        ∷ map (eviction "prod-1") (select is_evictable (web ∷ agent ∷ [])))
    × ((perform_drain services 5 "A" 0 root "n1" "prod-1").reply
        ≡ drained evicted
            (count_if is_daemon_set_pod (web ∷ agent ∷ []))
            (count_if (is_refused clients) (web ∷ agent ∷ [])))
    × (evicted
          + count_if is_daemon_set_pod (web ∷ agent ∷ [])
          + count_if (is_refused clients) (web ∷ agent ∷ [])
        ≡ length (web ∷ agent ∷ []))
    × (statuses (perform_drain services 5 "A" 0 root "n1" "prod-1").audited
        ≡ (if ltb 0 (count_if (is_refused clients) (web ∷ agent ∷ []))
            then audit_status_error
            else audit_status_success)
          ∷ [])
perform_drain-requests_example =
    perform_drain-requests services 5 "A" 0 root "n1" "prod-1" clients worker (web ∷ agent ∷ [])
      refl refl refl refl

handle_scale_confirm-handle_scale_set_example :
    (handle_scale_set services 5 "A" (some root) (scale_payload "deploy" "api" "shop" "prod-1" 3)
      ≡ screen "api" (
          button "k8s_scale_confirm" (scale_payload "deploy" "api" "shop" "prod-1" 3)
          ∷ button "k8s_scale_cancel" ("deploy" bar ("api" bar ("shop" bar "prod-1")))
          ∷ []))
    × ((◌≡◌ {A = String} "deploy" "deploy")
          × ((handle_scale_confirm services 5 "A" 0
                (some root)
                (scale_payload "deploy" "api" "shop" "prod-1" 3)).requests
              ≡ update_deployment_scale "prod-1" "shop" "api" 3 ∷ [])
        ⊎ (◌≡◌ {A = String} "deploy" "sts")
          × ((handle_scale_confirm services 5 "A" 0
                (some root)
                (scale_payload "deploy" "api" "shop" "prod-1" 3)).requests
              ≡ update_stateful_set_scale "prod-1" "shop" "api" 3 ∷ []))
unfolding get_workload
handle_scale_confirm-handle_scale_set_example =
    handle_scale_confirm-handle_scale_set services 5 "A" 0 1 root "deploy" "api" "shop" "prod-1" 3
      clients api refl refl refl refl (omega arith) refl refl refl

handle_pods_page_panics_example :
    ((handle_pods_page services 5 "A" (page_payload "shop" "prod-1" 3) ≡ slice_panic)
      ↔ (length (web ∷ agent ∷ []) < (3 - 1) * 8))
    × (3 ≤ total_pages (new_paginator (map (λ pod. pod.name) (web ∷ agent ∷ [])) page_size)
        → handle_pods_page services 5 "A" (page_payload "shop" "prod-1" 3) ≢ slice_panic)
handle_pods_page_panics_example =
    handle_pods_page_panics services 5 "A" "shop" "prod-1" 3 clients web (agent ∷ []) refl refl
      (omega arith) (omega arith) refl refl

abbrev first_call : Call
first_call = record { cluster = "prod-1"; at = 0; later = 1; answer = ok ("shop" ∷ []) }

abbrev second_call : Call
second_call = record { cluster = "prod-1"; at = 9; later = 9; answer = err not_found }

get_namespaces-run_example :
    ((names : List String)
      → (call (run [] (first_call ∷ [])) second_call).0 ≡ ok names
      → (second_call.answer ≡ ok names)
        ⊎ ((t : ℕ) × Fetched (first_call ∷ []) "prod-1" names t × (9 ≤ t + ttl)))
    × ((x : Error)
        → (call (run [] (first_call ∷ [])) second_call).0 ≡ err x
        → second_call.answer ≡ err x)
get_namespaces-run_example = get_namespaces-run (first_call ∷ []) second_call
